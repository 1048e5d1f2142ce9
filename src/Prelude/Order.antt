-- ===== src/Prelude/Order.antt =====
-- The comparisons that sorted listings use: less-than on numbers, integers and strings, by a field, one
-- after the other, and reversed. Each is a weak order, so that a sort by it orders.
use Prim.Native.Nat.{ℕ}
use mathlib.Core.Path.{◌≡◌}
use mathlib.Core.Logic.{◌↔◌}
use mathlib.Core.Bool.{Bool, true, false}
use mathlib.Core.List.{[], ◌∷◌}
use native.Mathlib.Omega.{arith}
use log_integrity.Prelude.Tests.{ltb, nat_beq, if◌then◌else◌}
use log_integrity.Prelude.Classes.{Text, text_beq}
use log_integrity.Prelude.Int.{ℤ, ltb_ℤ, beq_ℤ}

-- `a < b` on strings.
unfoldable pub ltb_text : Text → Text → Bool
ltb_text [] [] = false
ltb_text [] (y ∷ ys) = true
ltb_text (x ∷ xs) [] = false
ltb_text (x ∷ xs) (y ∷ ys) = let rest = ltb_text xs ys in if nat_beq x y then rest else ltb x y

ltb_text_asym : (a b : Text) → ltb_text a b ≡ true → ltb_text b a ≡ false
unfolding ltb_text
ltb_text_asym [] [] h = ground arith
ltb_text_asym [] (y ∷ ys) h = ground arith
ltb_text_asym (x ∷ xs) [] h = ground arith
ltb_text_asym (x ∷ xs) (y ∷ ys) h = ground (arith, ltb_text_asym xs ys)

ltb_text_through :
    (a b c : Text) → ltb_text c b ≡ false → ltb_text b a ≡ false → ltb_text c a ≡ false
unfolding ltb_text
ltb_text_through [] [] c h k = h
ltb_text_through [] (y ∷ ys) [] h k = ground arith
ltb_text_through [] (y ∷ ys) (z ∷ zs) h k = ground arith
ltb_text_through (x ∷ xs) [] c h k = ground arith
ltb_text_through (x ∷ xs) (y ∷ ys) [] h k = ground arith
ltb_text_through (x ∷ xs) (y ∷ ys) (z ∷ zs) h k = ground (arith, ltb_text_through xs ys zs)

ltb_text_connected :
    (a b : Text) → (text_beq a b ≡ true) ↔ ((ltb_text a b ≡ false) × (ltb_text b a ≡ false))
unfolding ltb_text text_beq
ltb_text_connected [] [] = ground arith
ltb_text_connected [] (y ∷ ys) = ground arith
ltb_text_connected (x ∷ xs) [] = ground arith
ltb_text_connected (x ∷ xs) (y ∷ ys) = ground (arith, ltb_text_connected xs ys)

-- No two items are before each other, and not being before passes on.
pub record IsWeak {A : Type 0} (less : A → A → Bool) : Type 0 where
  pub asym : (x y : A) → less x y ≡ true → less y x ≡ false
  pub through : (x y z : A) → less z y ≡ false → less y x ≡ false → less z x ≡ false

-- `same` holds between the items that no order of `less` tells apart.
abbrev pub Ties : {A : Type 0} → (A → A → Bool) → (A → A → Bool) → Type 0
Ties {A} same less = (x y : A) → (same x y ≡ true) ↔ ((less x y ≡ false) × (less y x ≡ false))

module _ {A : Type 0} where
  pub number-IsWeak : (f : A → ℕ) → IsWeak (λ x y. ltb (f x) (f y))
  number-IsWeak f = record { asym = λ x y h. ground arith; through = λ x y z h k. ground arith }

  pub int-IsWeak : (f : A → ℤ) → IsWeak (λ x y. ltb_ℤ (f x) (f y))
  int-IsWeak f = record { asym = λ x y h. ground arith; through = λ x y z h k. ground arith }

  pub text-IsWeak : (f : A → Text) → IsWeak (λ x y. ltb_text (f x) (f y))
  text-IsWeak f = record {
    asym = λ x y h. ltb_text_asym (f x) (f y) h;
    through = λ x y z h k. ltb_text_through (f x) (f y) (f z) h k;
  }

  pub int-Ties : (f : A → ℤ) → Ties (λ x y. beq_ℤ (f x) (f y)) (λ x y. ltb_ℤ (f x) (f y))
  int-Ties f x y = ground arith

  pub text-Ties : (f : A → Text) → Ties (λ x y. text_beq (f x) (f y)) (λ x y. ltb_text (f x) (f y))
  text-Ties f x y = ltb_text_connected (f x) (f y)

  -- `if same(a, b) { return second(a, b) }; return first(a, b)`
  pub lexical-IsWeak :
      (same first second : A → A → Bool)
      → Ties same first
      → IsWeak first
      → IsWeak second
      → IsWeak (λ x y. if same x y then second x y else first x y)
  lexical-IsWeak same first second t a b = record {
    asym = λ x y h. ground (arith, t x y, t y x, a.asym x y, b.asym x y);
    through = λ x y z h k. ground (
      arith,
      t z y,
      t y x,
      t z x,
      a.asym x z,
      a.through x y z,
      a.through y z x,
      a.through z x y,
      a.through z y x,
      a.through x z y,
      a.through y x z,
      b.through x y z,
    );
  }

  -- `less(b, a)`
  pub reversed-IsWeak : (less : A → A → Bool) → IsWeak less → IsWeak (λ x y. less y x)
  reversed-IsWeak less w = record {
    asym = λ x y h. w.asym y x h;
    through = λ x y z h k. w.through z y x k h;
  }
