-- ===== src/Increasing.antt =====
-- Log entries in strictly increasing order of their line numbers: the order in which the collector
-- reads them and in which a repository lists them.
use mathlib.Core.List.{append-nil}
use log_integrity.Prelude.{
  ◌≡◌, refl, ap₂, ◌∙◌, inl, inr, Bool, true, false, ◌&&◌, List, [], ◌∷◌, ◌++◌, arith, All, In,
  All-In, In-All, keep, keep-All, keep_none, keep-append, last_or,
}
use log_integrity.Prelude.Int.{ℤ, ◌<ℤ◌, ◌≤ℤ◌, leb_ℤ}
use log_integrity.Models.{LogEntry}

abbrev pub IsIncreasing : List LogEntry → Type 0
IsIncreasing [] = Unit
IsIncreasing (e ∷ es) = All (λ f. e.line_number <ℤ f.line_number) es × IsIncreasing es

pub IsIncreasing-tail_append : (xs ys : List LogEntry) → IsIncreasing (xs ++ ys) → IsIncreasing ys
IsIncreasing-tail_append [] ys h = h
IsIncreasing-tail_append (x ∷ xs) ys h = IsIncreasing-tail_append xs ys h.1

All-prefix : (P : LogEntry → Type 0) (xs ys : List LogEntry) → All P (xs ++ ys) → All P xs
All-prefix P [] ys h = tt
All-prefix P (x ∷ xs) ys h = (h.0, All-prefix P xs ys h.1)

All-suffix : (P : LogEntry → Type 0) (xs ys : List LogEntry) → All P (xs ++ ys) → All P ys
All-suffix P [] ys h = h
All-suffix P (x ∷ xs) ys h = All-suffix P xs ys h.1

-- Everything before a point of the list is below everything after it.
pub IsIncreasing-split :
    (xs ys : List LogEntry) (x y : LogEntry)
    → IsIncreasing (xs ++ ys)
    → In x xs
    → In y ys
    → x.line_number <ℤ y.line_number
IsIncreasing-split [] ys x y h i j = elim i [ ]
IsIncreasing-split (z ∷ xs) ys x y h (inl q) j =
    rw q (All-In (λ f. z.line_number <ℤ f.line_number) y ys (All-suffix _ xs ys h.0) j)
IsIncreasing-split (z ∷ xs) ys x y h (inr i) j = IsIncreasing-split xs ys x y h.1 i j

pub IsIncreasing-prefix : (xs ys : List LogEntry) → IsIncreasing (xs ++ ys) → IsIncreasing xs
IsIncreasing-prefix [] ys h = tt
IsIncreasing-prefix (x ∷ xs) ys h =
    (All-prefix (λ f. x.line_number <ℤ f.line_number) xs ys h.0, IsIncreasing-prefix xs ys h.1)

In-last_or : (e : LogEntry) (es : List LogEntry) → In (last_or e es) (e ∷ es)
In-last_or e [] = inl refl
In-last_or e (f ∷ es) = inr (In-last_or f es)

-- The bounds of a non-empty increasing list.
pub IsIncreasing-first :
    (e f : LogEntry) (es : List LogEntry)
    → IsIncreasing (e ∷ es)
    → In f (e ∷ es)
    → e.line_number ≤ℤ f.line_number
IsIncreasing-first e f es h (inl q) = rw q (omega arith)
IsIncreasing-first e f es h (inr i) =
    omega (arith, All-In (λ g. e.line_number <ℤ g.line_number) f es h.0 i)

pub IsIncreasing-last :
    (e f : LogEntry) (es : List LogEntry)
    → IsIncreasing (e ∷ es)
    → In f (e ∷ es)
    → f.line_number ≤ℤ (last_or e es).line_number
IsIncreasing-last e f [] h (inl q) = rw q (omega arith)
IsIncreasing-last e f [] h (inr i) = elim i [ ]
IsIncreasing-last e f (g ∷ es) h (inl q) =
    rw q (omega (arith, h.0.0, IsIncreasing-last g g es h.1 (inl refl)))
IsIncreasing-last e f (g ∷ es) h (inr i) = IsIncreasing-last g f es h.1 i

-- `from <= line && line <= to`
abbrev pub in_range : ℤ → ℤ → LogEntry → Bool
in_range from to e = leb_ℤ from e.line_number && leb_ℤ e.line_number to

-- In an increasing list the lines between the bounds of a segment are that segment.
pub keep-in_range :
    (before : List LogEntry) (e : LogEntry) (es after : List LogEntry)
    → IsIncreasing (before ++ ((e ∷ es) ++ after))
    → keep (in_range e.line_number (last_or e es).line_number) (before ++ ((e ∷ es) ++ after))
      ≡ e ∷ es
keep-in_range before e es after h =
    keep-append p before ((e ∷ es) ++ after)
    ∙ ap₂ (λ u v. u ++ v) (keep_none p before (In-All _ before below))
        (keep-append p (e ∷ es) after
          ∙ ap₂ (λ u v. u ++ v) (keep-All p (e ∷ es) (In-All _ (e ∷ es) inside))
              (keep_none p after (In-All _ after above)))
    ∙ append-nil (e ∷ es)
  where
    p : LogEntry → Bool
    p = in_range e.line_number (last_or e es).line_number

    rest : IsIncreasing ((e ∷ es) ++ after)
    rest = IsIncreasing-tail_append before ((e ∷ es) ++ after) h

    segment : IsIncreasing (e ∷ es)
    segment = IsIncreasing-prefix (e ∷ es) after rest

    below : (x : LogEntry) → In x before → p x ≡ false
    below x i = ground (arith, IsIncreasing-split before ((e ∷ es) ++ after) x e h i (inl refl))

    inside : (x : LogEntry) → In x (e ∷ es) → p x ≡ true
    inside x i =
        ground (arith, IsIncreasing-first e x es segment i, IsIncreasing-last e x es segment i)

    above : (x : LogEntry) → In x after → p x ≡ false
    above x i =
        ground (arith, IsIncreasing-split (e ∷ es) after (last_or e es) x rest (In-last_or e es) i)
