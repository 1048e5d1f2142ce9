-- ===== src/Integrity/Covered.antt =====
-- The set of covered lines in findTamperedEntries, and the stored entries outside it.
use mathlib.Core.Path.{subst}
use log_integrity.Prelude.{
  suc, ◌≡◌, refl, sym, ap, ◌∙◌, ◌⊎◌, inl, inr, false, List, [], ◌∷◌, arith, All-In, In, Distinct,
  length, contains, add_new, In-add_new, In-add_new_self, add_new-In, add_new-Distinct,
}
use log_integrity.Prelude.Int.{ℤ, int_eq, ◌<ℤ◌}
use log_integrity.Models.{LogEntry}
use log_integrity.Increasing.{IsIncreasing}
use log_integrity.Integrity.{cover, uncovered}

pub In-cover :
    (es : List LogEntry) (covered : List ℤ) (n : ℤ) → In n covered → In n (cover covered es)
unfolding cover
In-cover [] covered n i = i
In-cover (e ∷ es) covered n i =
    In-cover es (add_new e.line_number covered) n (In-add_new e.line_number n covered i)

pub In-cover_entry :
    (es : List LogEntry) (covered : List ℤ) (e : LogEntry)
    → In e es
    → In e.line_number (cover covered es)
unfolding cover
In-cover_entry [] covered e i = elim i [ ]
In-cover_entry (f ∷ es) covered e (inl q) =
    In-cover es (add_new f.line_number covered) e.line_number (
      subst (λ z. In z.line_number (add_new f.line_number covered)) (sym q)
        (In-add_new_self f.line_number covered))
In-cover_entry (f ∷ es) covered e (inr i) = In-cover_entry es (add_new f.line_number covered) e i

pub cover-In :
    (es : List LogEntry) (covered : List ℤ) (n : ℤ)
    → In n (cover covered es)
    → In n covered ⊎ ((e : LogEntry) × In e es × (n ≡ e.line_number))
unfolding cover
cover-In [] covered n i = inl i
cover-In (f ∷ es) covered n i = elim (cover-In es (add_new f.line_number covered) n i) [
  | inl j ↦ elim (add_new-In f.line_number n covered j) [
    | inl q ↦ inr (f, inl refl, q)
    | inr k ↦ inl k
  ]
  | inr (e, j, q) ↦ inr (e, inr j, q)
]

pub cover-Distinct :
    (es : List LogEntry) (covered : List ℤ) → Distinct covered → Distinct (cover covered es)
unfolding cover
cover-Distinct [] covered d = d
cover-Distinct (e ∷ es) covered d =
    cover-Distinct es (add_new e.line_number covered) (add_new-Distinct e.line_number covered d)

pub In-uncovered :
    (covered : List ℤ) (es : List LogEntry) (e : LogEntry)
    → In e es
    → contains covered e.line_number ≡ false
    → In e (uncovered covered es)
unfolding uncovered
In-uncovered covered [] e i h = elim i [ ]
In-uncovered covered (f ∷ es) e (inl q) h =
    ground (arith, ap (λ z. contains covered z.line_number) q)
In-uncovered covered (f ∷ es) e (inr i) h = ground (arith, In-uncovered covered es e i h)

pub uncovered-In :
    (covered : List ℤ) (es : List LogEntry) (e : LogEntry) → In e (uncovered covered es) → In e es
unfolding uncovered
uncovered-In covered [] e i = elim i [ ]
uncovered-In covered (f ∷ es) e i = ground (arith, uncovered-In covered es e)

-- In increasing order a line number belongs to one entry.
pub same_line :
    (es : List LogEntry) (e f : LogEntry)
    → IsIncreasing es
    → In e es
    → In f es
    → e.line_number ≡ f.line_number
    → e ≡ f
same_line [] e f h i j q = elim i [ ]
same_line (x ∷ es) e f h (inl p) (inl r) q = p ∙ sym r
same_line (x ∷ es) e f h (inl p) (inr j) q = absurd (
    ground
      (arith, All-In (λ z. x.line_number <ℤ z.line_number) f es h.0 j, ap (λ z. z.line_number) p))
same_line (x ∷ es) e f h (inr i) (inl r) q = absurd (
    ground
      (arith, All-In (λ z. x.line_number <ℤ z.line_number) e es h.0 i, ap (λ z. z.line_number) r))
same_line (x ∷ es) e f h (inr i) (inr j) q = same_line es e f h.1 i j q

abbrev pub line_numbers : List LogEntry → List ℤ
line_numbers [] = []
line_numbers (e ∷ es) = e.line_number ∷ line_numbers es

pub In-line_numbers :
    (e : LogEntry) (es : List LogEntry) → In e es → In e.line_number (line_numbers es)
In-line_numbers e [] i = elim i [ ]
In-line_numbers e (f ∷ es) (inl q) = inl (ap (λ z. z.line_number) q)
In-line_numbers e (f ∷ es) (inr i) = inr (In-line_numbers e es i)

pub length-line_numbers : (es : List LogEntry) → length (line_numbers es) ≡ length es
length-line_numbers [] = refl
length-line_numbers (e ∷ es) = ap suc (length-line_numbers es)
