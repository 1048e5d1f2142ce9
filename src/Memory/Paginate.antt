-- ===== src/Memory/Paginate.antt =====
-- internal/repository/memory/helpers.go: paginate on Go's int, with the sum that wraps around.
use log_integrity.Prelude.{
  ℕ, zero, suc, ◌+◌, ◌-◌, ◌^◌, ◌≤◌, ◌<◌, ◌≡◌, refl, ap, ◌||◌, Option, none, some, List, [], ◌∷◌,
  arith, length, take, drop, length-drop, ltb, leb, if◌then◌else◌, Bool-cases, nat_beq, inl, inr,
}
use log_integrity.Prelude.Int.{ℤ, pos, pos_part, add64, add64_pos, add64_overflow, ltb_ℤ, leb_ℤ}

-- normalizeOffset
unfoldable pub normalize_offset : ℤ → ℤ
normalize_offset offset = if ltb_ℤ offset (pos 0) then pos 0 else offset

-- The number of items to return from the offset on.
unfoldable pub page_limit : ℤ → ℤ → ℤ → ℤ
page_limit size offset limit =
    if leb_ℤ limit (pos 0) || ltb_ℤ size (add64 offset limit)
    then pos (pos_part size - pos_part offset)
    else limit

-- `make([]T, limit)` and `copy`: `none` is the panic of a length past the items that can be held, or
-- of a slice past the end of the items.
abbrev slice : {A : Type 0} → List A → ℤ → ℤ → Option (List A)
slice items offset limit =
    if ltb_ℤ (pos (length items)) (add64 offset limit) || ltb_ℤ (add64 offset limit) offset
    then none
    else some (take (pos_part limit) (drop (pos_part offset) items))

unfoldable pub paginate : {A : Type 0} → List A → ℤ → ℤ → Option (List A)
unfolding normalize_offset page_limit
paginate items offset limit =
    let start = normalize_offset offset in
    if leb_ℤ (pos (length items)) start
    then some []
    else slice items start (page_limit (pos (length items)) start limit)

take_all {ℓ} : {A : Type ℓ} (n : ℕ) (xs : List A) → length xs ≤ n → take n xs ≡ xs
take_all zero [] h = refl
take_all zero (x ∷ xs) h = elim h [ ]
take_all (suc n) [] h = refl
take_all (suc n) (x ∷ xs) h = ap (◌∷◌ x) (take_all n xs (omega arith))

drop_past : {A : Type 0} (n : ℕ) (xs : List A) → length xs ≤ n → drop n xs ≡ []
drop_past zero [] h = refl
drop_past zero (x ∷ xs) h = elim h [ ]
drop_past (suc n) [] h = refl
drop_past (suc n) (x ∷ xs) h = drop_past n xs (omega arith)

take_nil : {A : Type 0} (n : ℕ) → ◌≡◌ {A = List A} (take n []) []
take_nil zero = refl
take_nil (suc n) = refl

-- For fewer than 2^63 items, and an offset and a limit from 0 whose sum is below 2^63, paginate
-- returns the items from the offset on, at most as many as the limit, or all of them for the
-- limit 0.
pub paginate_page :
    {A : Type 0} (items : List A) (offset limit : ℕ)
    → length items < 2 ^ 63
    → offset + limit < 2 ^ 63
    → paginate items (pos offset) (pos limit)
      ≡ some (if nat_beq limit 0 then drop offset items else take limit (drop offset items))
unfolding paginate
paginate_page {A} items offset limit h k = elim (Bool-cases (leb (length items) offset)) [
  | inl past ↦ ground (arith, drop_past offset items, take_nil {A = A} limit)
  | inr inside ↦ elim (Bool-cases (nat_beq limit 0 || ltb (length items) (offset + limit))) [
    | inl rest ↦ ground (
      arith,
      add64_pos offset limit k,
      add64_pos offset (length items - offset) (ground arith),
      length-drop offset items,
      take_all (length items - offset) (drop offset items)
          (ground (arith, length-drop offset items)),
      take_more limit (drop offset items),
    )
    | inr part ↦ ground (arith, add64_pos offset limit k)
  ]
]
  where
    take_more : {A : Type 0} (n : ℕ) (xs : List A) → length xs ≤ n → take n xs ≡ xs
    take_more n xs q = take_all n xs q

-- For an offset inside the items and a positive limit, both below 2^63, whose sum is 2^63 or
-- more, the sum wraps around and paginate panics.
pub paginate_overflow :
    {A : Type 0} (items : List A) (offset limit : ℕ)
    → offset < length items
    → offset < 2 ^ 63
    → 0 < limit
    → limit < 2 ^ 63
    → 2 ^ 63 ≤ offset + limit
    → paginate items (pos offset) (pos limit) ≡ none
unfolding paginate
paginate_overflow items offset limit a b c d e = ground (arith, add64_overflow offset limit b d e)
