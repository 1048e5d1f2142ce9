-- ===== src/ServerService/Problems/Paging.antt =====
-- ListProblemsFiltered: its page.
use log_integrity.Prelude.{
  ℕ, ◌+◌, ◌-◌, ◌^◌, ◌≤◌, ◌<◌, ◌≡◌, refl, ap, zero, suc, some, List, [], ◌∷◌, arith, length, take,
  drop, length-drop, leb, ltb, Bool-cases, inl, inr,
}
use log_integrity.Prelude.Int.{pos, add64_pos}
use log_integrity.Models.Problem.{SystemProblem}
use log_integrity.ServerService.Problems.{problem_page}

take_all : (n : ℕ) (xs : List SystemProblem) → length xs ≤ n → take n xs ≡ xs
take_all zero [] h = refl
take_all zero (x ∷ xs) h = elim h [ ]
take_all (suc n) [] h = refl
take_all (suc n) (x ∷ xs) h = ap (◌∷◌ x) (take_all n xs (omega arith))

drop_past : (n : ℕ) (xs : List SystemProblem) → length xs ≤ n → drop n xs ≡ []
drop_past zero [] h = refl
drop_past zero (x ∷ xs) h = elim h [ ]
drop_past (suc n) [] h = refl
drop_past (suc n) (x ∷ xs) h = drop_past n xs (omega arith)

take_nil : (n : ℕ) → ◌≡◌ {A = List SystemProblem} (take n []) []
take_nil zero = refl
take_nil (suc n) = refl

-- For fewer than 2^63 problems, an offset from 0 and a positive limit whose sum is below 2^63, the page
-- of ListProblemsFiltered has the problems from the offset on, at most as many as the limit, and
-- the number of all of them.
pub problem_page-shows :
    (items : List SystemProblem) (offset limit : ℕ)
    → length items < 2 ^ 63
    → 0 < limit
    → offset + limit < 2 ^ 63
    → problem_page items (pos offset) (pos limit)
      ≡ some (record {
        items = take limit (drop offset items);
        total = length items;
        offset = pos offset;
        limit = pos limit;
      })
unfolding problem_page
problem_page-shows items offset limit h p k = elim (Bool-cases (leb (length items) offset)) [
  | inl past ↦ ground (arith, drop_past offset items, take_nil limit)
  | inr inside ↦ elim (Bool-cases (ltb (offset + limit) (length items))) [
    | inl part ↦ ground (arith, add64_pos offset limit k)
    | inr rest ↦ ground (
      arith,
      add64_pos offset limit k,
      length-drop offset items,
      take_all (length items - offset) (drop offset items)
          (ground (arith, length-drop offset items)),
      take_all limit (drop offset items) (ground (arith, length-drop offset items)),
    )
  ]
]
