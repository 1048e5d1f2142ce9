-- ===== src/Integrity/Append.antt =====
-- appendUniqueTampered reports each line once, keeps what it has and drops no line.
use mathlib.Core.Path.{subst}
use log_integrity.Prelude.{
  ◌≡◌, refl, sym, ap, ◌∙◌, ◌⊎◌, inl, inr, false, List, [], ◌∷◌, ◌++◌, In, In-append, In-append_left,
  In-append_right, Distinct, contains, contains→In, add_new, In-add_new, In-add_new_self,
  add_new-In, not_contains→not-In, Bool-cases,
}
use log_integrity.Prelude.Int.{ℤ, int_eq}
use log_integrity.Models.{TamperedEntry}
use log_integrity.Integrity.{Found, append_unique_tampered}

-- The reported lines.
abbrev pub lines : List TamperedEntry → List ℤ
lines [] = []
lines (t ∷ ts) = t.line_number ∷ lines ts

pub In-lines : (t : TamperedEntry) (ts : List TamperedEntry) → In t ts → In t.line_number (lines ts)
In-lines t [] i = elim i [ ]
In-lines t (u ∷ ts) (inl q) = inl (ap (λ z. z.line_number) q)
In-lines t (u ∷ ts) (inr i) = inr (In-lines t ts i)

pub lines-In :
    (n : ℤ) (ts : List TamperedEntry)
    → In n (lines ts)
    → (t : TamperedEntry) × In t ts × (t.line_number ≡ n)
lines-In n [] i = elim i [ ]
lines-In n (u ∷ ts) (inl q) = (u, inl refl, sym q)
lines-In n (u ∷ ts) (inr i) = let (t, j, q) = lines-In n ts i in (t, inr j, q)

lines-append : (ts us : List TamperedEntry) → lines (ts ++ us) ≡ lines ts ++ lines us
lines-append [] us = refl
lines-append (t ∷ ts) us = ap (◌∷◌ t.line_number) (lines-append ts us)

Distinct-snoc : (xs : List ℤ) (n : ℤ) → Distinct xs → ¬ In n xs → Distinct (xs ++ n ∷ [])
Distinct-snoc [] n d h = (λ i. elim i [ ], tt)
Distinct-snoc (x ∷ xs) n d h = (
  λ i. elim (In-append x xs (n ∷ []) i) [
    | inl j ↦ d.0 j
    | inr j ↦ elim j [ inl q ↦ h (inl (sym q)) | inr k ↦ elim k [ ] ]
  ],
  Distinct-snoc xs n d.1 (λ i. h (inr i)),
)

-- The set of seen lines is the set of reported lines, and none is reported twice.
pub record IsTracked (f : Found) : Type 0 where
  pub seen_listed : (n : ℤ) → In n f.seen → In n (lines f.tampered)
  pub listed_seen : (n : ℤ) → In n (lines f.tampered) → In n f.seen
  pub distinct : Distinct (lines f.tampered)

add_item : Found → TamperedEntry → Found
add_item f t = record { tampered = f.tampered ++ t ∷ []; seen = add_new t.line_number f.seen }

add_item-IsTracked :
    (f : Found) (t : TamperedEntry)
    → IsTracked f
    → contains f.seen t.line_number ≡ false
    → IsTracked (add_item f t)
unfolding add_item
add_item-IsTracked f t h new = record {
  seen_listed = λ n i. subst (In n) (sym split) (listed n (add_new-In t.line_number n f.seen i));
  listed_seen =
      λ n i. back n (In-append n (lines f.tampered) (t.line_number ∷ []) (subst (In n) split i));
  distinct = subst Distinct (sym split) (
      Distinct-snoc (lines f.tampered) t.line_number h.distinct
        (λ i. not_contains→not-In f.seen t.line_number new (h.listed_seen t.line_number i)));
}
  where
    split : lines (f.tampered ++ t ∷ []) ≡ lines f.tampered ++ t.line_number ∷ []
    split = lines-append f.tampered (t ∷ [])

    listed :
        (n : ℤ) → (n ≡ t.line_number) ⊎ In n f.seen → In n (lines f.tampered ++ t.line_number ∷ [])
    listed n (inl q) = In-append_right n (lines f.tampered) (t.line_number ∷ []) (inl q)
    listed n (inr i) = In-append_left n (lines f.tampered) (t.line_number ∷ []) (h.seen_listed n i)

    back :
        (n : ℤ)
        → In n (lines f.tampered) ⊎ In n (t.line_number ∷ [])
        → In n (add_new t.line_number f.seen)
    back n (inl i) = In-add_new t.line_number n f.seen (h.listed_seen n i)
    back n (inr (inl q)) =
        subst (λ m. In m (add_new t.line_number f.seen)) (sym q)
          (In-add_new_self t.line_number f.seen)
    back n (inr (inr i)) = elim i [ ]

-- What one call does to the found entries.
pub record Appends (f : Found) (items : List TamperedEntry) (g : Found) : Type 0 where
  pub tracked : IsTracked g
  pub keeps : (t : TamperedEntry) → In t f.tampered → In t g.tampered
  pub adds : (t : TamperedEntry) → In t items → In t.line_number (lines g.tampered)
  pub from : (t : TamperedEntry) → In t g.tampered → In t f.tampered ⊎ In t items

-- From a list whose lines are the seen ones, each once, appendUniqueTampered keeps every report,
-- leaves each new line reported, adds nothing else, and the lines are again the seen ones, each
-- once.
pub append_unique_tampered-Appends :
    (f : Found) (items : List TamperedEntry)
    → IsTracked f
    → Appends f items (append_unique_tampered f items)
unfolding append_unique_tampered add_item
append_unique_tampered-Appends f [] h = record {
  tracked = h;
  keeps = λ t i. i;
  adds = λ t i. elim i [ ];
  from = λ t i. inl i;
}
append_unique_tampered-Appends f (item ∷ items) h =
    elim (Bool-cases (contains f.seen item.line_number)) [
      | inl old ↦ rw old (
          skip (h.seen_listed item.line_number (contains→In f.seen item.line_number old))
            (append_unique_tampered-Appends f items h))
      | inr new ↦ rw new (
          insert (
            append_unique_tampered-Appends (add_item f item) items
              (add_item-IsTracked f item h new)))
    ]
  where
    skip :
        {g : Found}
        → In item.line_number (lines f.tampered)
        → Appends f items g
        → Appends f (item ∷ items) g
    skip {g} listed a = record {
      tracked = a.tracked;
      keeps = a.keeps;
      adds = λ t i. elim i [
        | inl q ↦
            let (u, j, e) = lines-In item.line_number f.tampered listed in
            subst (λ n. In n (lines g.tampered)) (e ∙ ap (λ z. z.line_number) (sym q))
              (In-lines u g.tampered (a.keeps u j))
        | inr j ↦ a.adds t j
      ];
      from = λ t i. elim (a.from t i) [ inl j ↦ inl j | inr j ↦ inr (inr j) ];
    }

    insert : {g : Found} → Appends (add_item f item) items g → Appends f (item ∷ items) g
    insert {g} a = record {
      tracked = a.tracked;
      keeps = λ t i. a.keeps t (In-append_left t f.tampered (item ∷ []) i);
      adds = λ t i. elim i [
        | inl q ↦
            In-lines t g.tampered (a.keeps t (In-append_right t f.tampered (item ∷ []) (inl q)))
        | inr j ↦ a.adds t j
      ];
      from = λ t i. elim (a.from t i) [
        | inl j ↦ elim (In-append t f.tampered (item ∷ []) j) [
          | inl k ↦ inl k
          | inr k ↦ elim k [ inl q ↦ inr (inl q) | inr l ↦ elim l [ ] ]
        ]
        | inr j ↦ inr (inr j)
      ];
    }
