-- ===== src/Prelude/Search.antt =====
-- Membership tests of slices and of Go's sets `map[K]struct{}`.
use Prim.Native.Nat.{◌≤◌, ◌<◌}
use mathlib.Core.Path.{◌≡◌, refl, sym, subst}
use mathlib.Core.Logic.{◌⊎◌, inl, inr}
use mathlib.Core.Bool.{Bool, true, false}
use mathlib.Core.List.{List, [], ◌∷◌}
use native.Mathlib.Omega.{arith}
use log_integrity.Prelude.Tests.{if◌then◌else◌, Bool-cases}
use log_integrity.Prelude.Lists.{In, Distinct, length}
use log_integrity.Prelude.Classes.{Eq, ◌==◌, beq_ne}

module _ {A : Type 0} ⦃e : Eq A⦄ where
  unfoldable pub contains : List A → A → Bool
  contains [] a = false
  contains (x ∷ xs) a = let rest = contains xs a in if a == x then true else rest

  pub contains→In : (xs : List A) (a : A) → contains xs a ≡ true → In a xs
  unfolding contains
  contains→In [] a h = cc
  contains→In (x ∷ xs) a h = elim (Bool-cases (a == x)) [
    | inl q ↦ inl ((e.equals_iff a x).0 q)
    | inr q ↦ inr (contains→In xs a (ground arith))
  ]

  pub In→contains : (xs : List A) (a : A) → In a xs → contains xs a ≡ true
  unfolding contains
  In→contains [] a h = elim h [ ]
  In→contains (x ∷ xs) a (inl q) = rw ((e.equals_iff a x).1 q)
  In→contains (x ∷ xs) a (inr h) = ground (arith, In→contains xs a h)

  -- `set[k] = struct{}{}`
  unfoldable pub add_new : A → List A → List A
  unfolding contains
  add_new a xs = if contains xs a then xs else a ∷ xs

  -- Removes every occurrence.
  unfoldable pub without : A → List A → List A
  without a [] = []
  without a (x ∷ xs) = let rest = without a xs in if a == x then rest else x ∷ rest

  pub length-without-le : (a : A) (xs : List A) → length (without a xs) ≤ length xs
  unfolding without
  length-without-le a [] = omega arith
  length-without-le a (x ∷ xs) = ground (arith, length-without-le a xs)

  pub In-without : (a b : A) (xs : List A) → In b xs → (a == b) ≡ false → In b (without a xs)
  unfolding without
  In-without a b [] h n = elim h [ ]
  In-without a b (x ∷ xs) (inl q) n = rw (← q, n) (inl refl)
  In-without a b (x ∷ xs) (inr h) n = ground (arith, In-without a b xs h n)

  pub length-without-lt : (a : A) (xs : List A) → In a xs → length (without a xs) < length xs
  unfolding without
  length-without-lt a [] h = elim h [ ]
  length-without-lt a (x ∷ xs) (inl q) =
      rw ((e.equals_iff a x).1 q) (omega (arith, length-without-le a xs))
  length-without-lt a (x ∷ xs) (inr h) =
      ground (arith, length-without-lt a xs h, length-without-le a xs)

  -- Distinct entries that all lie in another list are no more than its entries.
  pub length-le_of_subset :
      (xs ys : List A) → Distinct xs → ((a : A) → In a xs → In a ys) → length xs ≤ length ys
  length-le_of_subset [] ys d s = omega arith
  length-le_of_subset (x ∷ xs) ys d s = omega (
    arith,
    length-le_of_subset xs (without x ys) d.1 inside,
    length-without-lt x ys (s x (inl refl)),
  )
    where
      inside : (a : A) → In a xs → In a (without x ys)
      inside a i =
          In-without x a ys (s a (inr i)) (beq_ne x a (λ q. d.0 (subst (λ t. In t xs) (sym q) i)))

  -- So a list that misses one entry of `ys` is shorter than `ys`.
  pub length-lt_of_missing :
      (xs ys : List A) (b : A)
      → Distinct xs
      → ((a : A) → In a xs → In a ys)
      → In b ys
      → ¬ In b xs
      → length xs < length ys
  length-lt_of_missing xs ys b d s i n =
      length-le_of_subset (b ∷ xs) ys (n, d) λ a h. elim h [ inl q ↦ rw q i | inr k ↦ s a k ]

  pub In-add_new_self : (a : A) (xs : List A) → In a (add_new a xs)
  unfolding add_new
  In-add_new_self a xs = elim (Bool-cases (contains xs a)) [
    | inl old ↦ rw old (contains→In xs a old)
    | inr new ↦ rw new (inl refl)
  ]

  pub In-add_new : (a b : A) (xs : List A) → In b xs → In b (add_new a xs)
  unfolding add_new
  In-add_new a b xs i = elim (Bool-cases (contains xs a)) [
    | inl old ↦ rw old i
    | inr new ↦ rw new (inr i)
  ]

  pub add_new-In : (a b : A) (xs : List A) → In b (add_new a xs) → (b ≡ a) ⊎ In b xs
  unfolding add_new
  add_new-In a b xs i = ground arith

  pub add_new-Distinct : (a : A) (xs : List A) → Distinct xs → Distinct (add_new a xs)
  unfolding add_new
  add_new-Distinct a xs d = ground (arith, In→contains xs a)

  pub not_contains→not-In : (xs : List A) (a : A) → contains xs a ≡ false → ¬ In a xs
  not_contains→not-In xs a h i = ground (arith, In→contains xs a i)
