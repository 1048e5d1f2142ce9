-- ===== src/Collector/Split.antt =====
-- internal/service/collector/service.go: splitEntries and splitChunks, which cut a slice into
-- bounded batches. `start` advances by the batch size, so the rounds left are bounded by the length.
use log_integrity.Prelude.{
  ℕ, zero, suc, ◌≤◌, ◌<◌, ◌≡◌, refl, ap, ◌∙◌, inl, inr, true, false, ◌||◌, List, [], ◌∷◌, ◌++◌,
  arith, All, length, take, drop, concat, length-take, length-drop, take-append-drop, if◌then◌else◌,
  Bool-cases,
}
use mathlib.Core.List.{append-nil}
use native.Mathlib.Nat.{le_refl}
use log_integrity.Prelude.Int.{ℤ, pos, pos_part, leb_ℤ, ◌<ℤ◌}
use log_integrity.Models.{LogEntry, LogChunk}

module _ {ℓ} {A : Type ℓ} where
  -- `for start := 0; start < len(items); start += size`, on the rest of the slice from `start`.
  split_loop : ℕ → ℕ → List A → List (List A)
  split_loop zero size rest = []
  split_loop (suc rounds) size [] = []
  split_loop (suc rounds) size (x ∷ rest) =
      take size (x ∷ rest) ∷ split_loop rounds size (drop size (x ∷ rest))

  unfoldable pub split_batches : List A → ℤ → List (List A)
  unfolding split_loop
  split_batches items size =
      if leb_ℤ size (pos 0) || leb_ℤ (pos (length items)) size
      then items ∷ []
      else split_loop (length items) (pos_part size) items

  concat-split_loop :
      (rounds size : ℕ) (rest : List A)
      → 0 < size
      → length rest ≤ rounds
      → concat (split_loop rounds size rest) ≡ rest
  unfolding split_loop
  concat-split_loop zero size [] p h = refl
  concat-split_loop zero size (x ∷ rest) p h = elim h [ ]
  concat-split_loop (suc rounds) size [] p h = refl
  concat-split_loop (suc rounds) size (x ∷ rest) p h =
      ap (λ t. take size (x ∷ rest) ++ t)
        (concat-split_loop rounds size (drop size (x ∷ rest)) p
          (omega (arith, length-drop size (x ∷ rest))))
      ∙ take-append-drop size (x ∷ rest)

  -- The batches in order are the slice: nothing is lost, repeated or reordered, at any size.
  pub concat-split_batches : (items : List A) (size : ℤ) → concat (split_batches items size) ≡ items
  unfolding split_batches
  concat-split_batches items size =
      elim (Bool-cases (leb_ℤ size (pos 0) || leb_ℤ (pos (length items)) size)) [
        | inl whole ↦ rw whole (append-nil items)
        | inr cut ↦ rw cut (
            concat-split_loop (length items) (pos_part size) items (positive size cut)
              (le_refl (length items)))
      ]
    where
      positive :
          (n : ℤ) → (leb_ℤ n (pos 0) || leb_ℤ (pos (length items)) n) ≡ false → 0 < pos_part n
      positive n h = ground arith

  -- A batch is not empty and holds at most `size` items.
  abbrev pub IsBatch : ℕ → List A → Type 0
  IsBatch size b = (0 < length b) × (length b ≤ size)

  split_loop_sizes :
      (rounds size : ℕ) (rest : List A)
      → 0 < size
      → All (IsBatch size) (split_loop rounds size rest)
  unfolding split_loop
  split_loop_sizes zero size rest p = tt
  split_loop_sizes (suc rounds) size [] p = tt
  split_loop_sizes (suc rounds) size (x ∷ rest) p = (
    omega (arith, length-take size (x ∷ rest)),
    split_loop_sizes rounds size (drop size (x ∷ rest)) p,
  )

  -- For a positive size and a slice that is not empty, every batch holds at least one item and at
  -- most as many as the size.
  pub split_batches_sizes :
      (items : List A) (size : ℤ)
      → pos 0 <ℤ size
      → 0 < length items
      → All (IsBatch (pos_part size)) (split_batches items size)
  unfolding split_batches
  split_batches_sizes items size p q =
      elim (Bool-cases (leb_ℤ size (pos 0) || leb_ℤ (pos (length items)) size)) [
        | inl whole ↦ rw whole ((q, fits size p whole), tt)
        | inr cut ↦ rw cut (split_loop_sizes (length items) (pos_part size) items (omega arith))
      ]
    where
      fits :
          (n : ℤ)
          → pos 0 <ℤ n
          → (leb_ℤ n (pos 0) || leb_ℤ (pos (length items)) n) ≡ true
          → length items ≤ pos_part n
      fits n h k = ground arith

unfoldable pub split_entries : List LogEntry → ℤ → List (List LogEntry)
unfolding split_batches
split_entries = split_batches

unfoldable pub split_chunks : List LogChunk → ℤ → List (List LogChunk)
unfolding split_batches
split_chunks = split_batches
