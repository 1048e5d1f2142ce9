-- ===== src/Integrity/Compare.antt =====
-- One stored entry, and one chunk: a chunk whose hash matches holds no changed line, unless two
-- texts collide under SHA-256.
use mathlib.Core.Option
use mathlib.Core.Path.{subst}
use log_integrity.Prelude.{
  ◌≡◌, ◌≢◌, refl, sym, ap, ap₂, ◌∙◌, ◌⊎◌, inl, inr, Bool, true, false, Option, none, some, List, [],
  ◌∷◌, ◌++◌, arith, All, In, Text, length, nat_beq, text_eq, text_beq, text_beq_iff, if◌then◌else◌,
}
use log_integrity.Prelude.GoMap.{GoMap, get}
use log_integrity.Prelude.Int.{ℤ, int_eq}
use log_integrity.Models.{LogEntry, LogChunk, TamperedEntry}
use log_integrity.Hasher.{Crypto, IsOneLine, hash_string, hash_string-IsOneLine}
use log_integrity.Collector.Chunks.{join_hashes, hashes, hash_entry_batch}
use log_integrity.Integrity.{
  compare_entry, compare_stored_entries, current_hashes, hash_current_chunk, chunk_matches,
}

-- The text of the current hashes differs from that of the stored ones and has the same SHA-256 value.
abbrev pub Collision : Crypto → Text → GoMap ℤ Text → List LogEntry → Type 0
Collision crypto key current stored =
    (hs : List Text) × (current_hashes crypto key current stored ≡ some hs)
    × (join_hashes hs ≢ join_hashes (hashes stored))
    × (crypto.sha256 (join_hashes hs) ≡ crypto.sha256 (join_hashes (hashes stored)))

-- The stored entries of a chunk and its hash agree, as when the collector wrote them.
abbrev pub IsSealed : Crypto → LogChunk → List LogEntry → Type 0
IsSealed crypto chunk stored =
    (chunk.hash ≡ hash_entry_batch crypto stored) × All IsOneLine (hashes stored)

split_line :
    (h k a b : Text) → IsOneLine h → IsOneLine k → h ++ 10 ∷ a ≡ k ++ 10 ∷ b → (h ≡ k) × (a ≡ b)
split_line [] [] a b p q e = (refl, cc)
split_line [] (y ∷ k) a b p q e = absurd (q.0 (cc))
split_line (x ∷ h) [] a b p q e = absurd (p.0 (cc))
split_line (x ∷ h) (y ∷ k) a b p q e = let r = split_line h k a b p.1 q.1 (cc) in (cc, r.1)

-- The joined text determines the hashes.
join_hashes-injective :
    (xs ys : List Text)
    → All IsOneLine xs
    → All IsOneLine ys
    → join_hashes xs ≡ join_hashes ys
    → xs ≡ ys
unfolding join_hashes
join_hashes-injective [] [] p q e = refl
join_hashes-injective [] (y ∷ ys) p q e = absurd (non_empty y (join_hashes ys) e)
  where
    non_empty : (h a : Text) → [] ≡ h ++ 10 ∷ a → ⊥
    non_empty [] a e = cc
    non_empty (c ∷ h) a e = cc
join_hashes-injective (x ∷ xs) [] p q e = absurd (non_empty x (join_hashes xs) e)
  where
    non_empty : (h a : Text) → h ++ 10 ∷ a ≡ [] → ⊥
    non_empty [] a e = cc
    non_empty (c ∷ h) a e = cc
join_hashes-injective (x ∷ xs) (y ∷ ys) p q e =
    let r = split_line x y (join_hashes xs) (join_hashes ys) p.0 q.0 e in
    ap₂ (λ u v. u ∷ v) r.0 (join_hashes-injective xs ys p.1 q.1 r.1)

some_inj : {xs ys : List Text} → some xs ≡ some ys → xs ≡ ys
some_inj h = cc

module _ (crypto : Crypto) (key : Text) (current : GoMap ℤ Text) where
  -- An entry is not reported exactly when its line is there with the stored hash.
  pub compare_entry-none :
      (e : LogEntry) (content : Text)
      → get current e.line_number ≡ some content
      → hash_string crypto content key ≡ e.hash
      → compare_entry crypto key current e ≡ none
  unfolding compare_entry
  compare_entry-none e content g h =
      rw (g, compare_entry) (ground (arith, text_beq_iff (hash_string crypto content key) e.hash))

  -- A report names the line and the stored hash of its entry.
  pub compare_entry-line :
      (e : LogEntry) (t : TamperedEntry)
      → compare_entry crypto key current e ≡ some t
      → (t.line_number ≡ e.line_number) × (t.stored_hash ≡ e.hash)
  unfolding compare_entry
  compare_entry-line e t h = ground arith

  pub In-compare :
      (es : List LogEntry) (e : LogEntry) (t : TamperedEntry)
      → In e es
      → compare_entry crypto key current e ≡ some t
      → In t (compare_stored_entries crypto key current es)
  unfolding compare_stored_entries
  In-compare [] e t i h = elim i [ ]
  In-compare (x ∷ es) e t (inl q) h =
      hit (compare_entry crypto key current x)
        (subst (λ z. compare_entry crypto key current z ≡ some t) q h)
    where
      hit :
          (o : Option TamperedEntry)
          → o ≡ some t
          → In t (elim o [
            | none ↦ compare_stored_entries crypto key current es
            | some u ↦ u ∷ compare_stored_entries crypto key current es
          ])
      hit none k = cc
      hit (some u) k = inl (cc)
  In-compare (x ∷ es) e t (inr i) h =
      pick (compare_entry crypto key current x) (In-compare es e t i h)
    where
      pick :
          (o : Option TamperedEntry)
          → In t (compare_stored_entries crypto key current es)
          → In t (elim o [
            | none ↦ compare_stored_entries crypto key current es
            | some u ↦ u ∷ compare_stored_entries crypto key current es
          ])
      pick none k = k
      pick (some u) k = inr k

  pub compare-In :
      (es : List LogEntry) (t : TamperedEntry)
      → In t (compare_stored_entries crypto key current es)
      → (e : LogEntry) × In e es × (compare_entry crypto key current e ≡ some t)
  unfolding compare_stored_entries
  compare-In [] t i = elim i [ ]
  compare-In (x ∷ es) t i = pick (compare_entry crypto key current x) refl i (compare-In es t)
    where
      pick :
          (o : Option TamperedEntry)
          → compare_entry crypto key current x ≡ o
          → In t (elim o [
            | none ↦ compare_stored_entries crypto key current es
            | some u ↦ u ∷ compare_stored_entries crypto key current es
          ])
          → (In t (compare_stored_entries crypto key current es)
              → (e : LogEntry) × In e es × (compare_entry crypto key current e ≡ some t))
          → (e : LogEntry) × In e (x ∷ es) × (compare_entry crypto key current e ≡ some t)
      pick none q k ih = let r = ih k in (r.0, inr r.1, r.2)
      pick (some u) q (inl k) ih = (x, inl refl, q ∙ ap some (sym k))
      pick (some u) q (inr k) ih = let r = ih k in (r.0, inr r.1, r.2)

  -- Where every line is there and hashes as stored, nothing is reported.
  abbrev pub Matches : LogEntry → Type 0
  Matches e = compare_entry crypto key current e ≡ none

  current_hashes-Matches :
      (es : List LogEntry)
      → current_hashes crypto key current es ≡ some (hashes es)
      → All Matches es
  unfolding current_hashes hashes
  current_hashes-Matches [] h = tt
  current_hashes-Matches (e ∷ es) h =
      pick (get current e.line_number) refl (current_hashes crypto key current es) refl h
        (current_hashes-Matches es)
    where
      pick :
          (o : Option Text)
          → get current e.line_number ≡ o
          → (r : Option (List Text)) → current_hashes crypto key current es ≡ r
          → elim o [
            | none ↦ none
            | some content ↦ Option.map (λ hs. hash_string crypto content key ∷ hs) r
          ]
            ≡ some (e.hash ∷ hashes es)
          → (current_hashes crypto key current es ≡ some (hashes es) → All Matches es)
          → All Matches (e ∷ es)
      pick none g r q h ih = cc
      pick (some c) g none q h ih = cc
      pick (some c) g (some hs) q h ih = (compare_entry-none e c g (cc), ih (q ∙ ap some (tails h)))
        where
          tails : some (hash_string crypto c key ∷ hs) ≡ some (e.hash ∷ hashes es) → hs ≡ hashes es
          tails k = cc

  current_hashes-IsOneLine :
      (es : List LogEntry) (hs : List Text)
      → current_hashes crypto key current es ≡ some hs
      → All IsOneLine hs
  unfolding current_hashes
  current_hashes-IsOneLine [] hs h = subst (All IsOneLine) (some_inj h) tt
  current_hashes-IsOneLine (e ∷ es) hs h =
      pick (get current e.line_number) (current_hashes crypto key current es) refl h
        (current_hashes-IsOneLine es)
    where
      pick :
          (o : Option Text) (r : Option (List Text))
          → current_hashes crypto key current es ≡ r
          → elim o [
            | none ↦ none
            | some content ↦ Option.map (λ hs. hash_string crypto content key ∷ hs) r
          ]
            ≡ some hs
          → ((rest : List Text)
              → current_hashes crypto key current es ≡ some rest
              → All IsOneLine rest)
          → All IsOneLine hs
      pick none r q k ih = cc
      pick (some c) none q k ih = cc
      pick (some c) (some rest) q k ih =
          subst (All IsOneLine) (some_inj k) (hash_string-IsOneLine crypto c key, ih rest q)

  -- Where a sealed chunk matches the current lines, no stored entry of it differs from its line,
  -- unless the texts of the current and of the stored hashes differ and collide under SHA-256.
  pub chunk_matches-Matches :
      (chunk : LogChunk) (stored : List LogEntry)
      → IsSealed crypto chunk stored
      → chunk_matches crypto key current chunk stored ≡ true
      → All Matches stored ⊎ Collision crypto key current stored
  unfolding hash_current_chunk hash_entry_batch
  chunk_matches-Matches chunk stored sealed h =
      count (nat_beq (length stored) chunk.entries_count) h
    where
      decide :
          (hs : List Text)
          → current_hashes crypto key current stored ≡ some hs
          → crypto.sha256 (join_hashes hs) ≡ crypto.sha256 (join_hashes (hashes stored))
          → (b : Bool) → text_beq (join_hashes hs) (join_hashes (hashes stored)) ≡ b
          → All Matches stored ⊎ Collision crypto key current stored
      decide hs q k true t = inl (
          current_hashes-Matches stored (
            q
            ∙ ap some (
                join_hashes-injective hs (hashes stored) (current_hashes-IsOneLine stored hs q)
                  sealed.1 ((text_beq_iff (join_hashes hs) (join_hashes (hashes stored))).0 t))))
      decide hs q k false t = inr (
        hs,
        q,
        (λ e. ground (arith, text_beq_iff (join_hashes hs) (join_hashes (hashes stored)))),
        k,
      )

      found :
          (r : Option (List Text))
          → current_hashes crypto key current stored ≡ r
          → elim (Option.map (λ hs. crypto.sha256 (join_hashes hs)) r) [
            | none ↦ false
            | some hash ↦ text_beq hash chunk.hash
          ]
            ≡ true
          → All Matches stored ⊎ Collision crypto key current stored
      found none q k = cc
      found (some hs) q k =
          decide hs q ((text_beq_iff (crypto.sha256 (join_hashes hs)) chunk.hash).0 k ∙ sealed.0)
            (text_beq (join_hashes hs) (join_hashes (hashes stored))) refl

      count :
          (b : Bool)
          → elim (if b
              then Option.map
                  (λ hs. crypto.sha256 (join_hashes hs))
                  (current_hashes crypto key current stored)
              else none) [ none ↦ false | some hash ↦ text_beq hash chunk.hash ]
            ≡ true
          → All Matches stored ⊎ Collision crypto key current stored
      count true k = found (current_hashes crypto key current stored) refl k
      count false k = cc
