-- ===== src/Prelude/Strings.antt =====
-- The functions of Go's `strings` and `strconv` that the program uses, on the bytes of a string.
-- Letters are folded to lower case as in ASCII; other bytes stay.
use Prim.Native.Nat.{ℕ, zero, suc, ◌+◌, ◌-◌, ◌*◌}
use mathlib.Core.Bool.{Bool, true, false, ◌&&◌, ◌||◌}
use mathlib.Core.List.{List, [], ◌∷◌, reverse}
use mathlib.Core.Option.{Option, none, some}
use log_integrity.Prelude.Tests.{ltb, leb, nat_beq, if◌then◌else◌}
use log_integrity.Prelude.Classes.{Text, text_beq}
use log_integrity.Prelude.Int.{ℤ, pos, negsuc}

-- The white space of `unicode.IsSpace` that takes one byte.
abbrev pub is_space : ℕ → Bool
is_space c = nat_beq c 32 || (leb 9 c && leb c 13)

-- The last byte of the white space at E2 80 and at E2 81, E1 9A, E3 80 (U+2000..U+3000).
is_space₃ : ℕ → ℕ → ℕ → Bool
is_space₃ a b c =
    (nat_beq a 0xe2
      && nat_beq b 0x80
      && ((leb 0x80 c && leb c 0x8a) || nat_beq c 0xa8 || nat_beq c 0xa9 || nat_beq c 0xaf))
    || (nat_beq a 0xe2 && nat_beq b 0x81 && nat_beq c 0x9f)
    || (nat_beq a 0xe1 && nat_beq b 0x9a && nat_beq c 0x80)
    || (nat_beq a 0xe3 && nat_beq b 0x80 && nat_beq c 0x80)

-- U+0085 and U+00A0.
is_space₂ : ℕ → ℕ → Bool
is_space₂ a b = nat_beq a 0xc2 && (nat_beq b 0x85 || nat_beq b 0xa0)

-- Drops white space in front. The text is read once: `skip` counts the bytes left to drop.
trim_with : (ℕ → ℕ → Bool) → (ℕ → ℕ → ℕ → Bool) → Text → Text
trim_with two three [] = []
trim_with two three (a ∷ []) = if is_space a then [] else a ∷ []
trim_with two three (a ∷ b ∷ []) =
    let rest = trim_with two three (b ∷ []) in
    if is_space a then rest else if two a b then [] else a ∷ b ∷ []
trim_with two three (a ∷ b ∷ c ∷ s) =
    let rest₁ = trim_with two three (b ∷ c ∷ s) in
    let rest₂ = trim_with two three (c ∷ s) in
    let rest₃ = trim_with two three s in
    if is_space a
    then rest₁
    else if two a b
    then rest₂
    else if three a b c
    then rest₃
    else a ∷ b ∷ c ∷ s

unfoldable pub trim_left : Text → Text
unfolding trim_with is_space₂ is_space₃
trim_left = trim_with is_space₂ is_space₃

unfoldable pub trim_right : Text → Text
unfolding trim_with is_space₂ is_space₃
trim_right s = reverse (trim_with (λ b a. is_space₂ a b) (λ c b a. is_space₃ a b c) (reverse s))

-- `strings.TrimSpace`
unfoldable pub trim_space : Text → Text
unfolding trim_left trim_right
trim_space s = trim_right (trim_left s)

-- `strings.TrimRight(s, "\r")`
drop_cr : Text → Text
drop_cr [] = []
drop_cr (c ∷ s) = let rest = drop_cr s in if nat_beq c 13 then rest else c ∷ s

unfoldable pub trim_right_cr : Text → Text
unfolding drop_cr
trim_right_cr s = reverse (drop_cr (reverse s))

-- `strings.ReplaceAll(s, "\r\n", "\n")`
unfoldable pub unix_lines : Text → Text
unix_lines [] = []
unix_lines (c ∷ []) = c ∷ []
unix_lines (c ∷ d ∷ s) =
    let skipped = unix_lines s in
    let kept = unix_lines (d ∷ s) in if nat_beq c 13 && nat_beq d 10 then 10 ∷ skipped else c ∷ kept

-- Puts a byte in front of the first piece.
abbrev onto_first : ℕ → List Text → List Text
onto_first c [] = (c ∷ []) ∷ []
onto_first c (p ∷ ps) = (c ∷ p) ∷ ps

-- `strings.Split(s, "\n")`
unfoldable pub split_lines : Text → List Text
split_lines [] = [] ∷ []
split_lines (c ∷ s) =
    let rest = split_lines s in if nat_beq c 10 then [] ∷ rest else onto_first c rest

abbrev cons_before : ℕ → Option (Text × Text) → Option (Text × Text)
cons_before c none = none
cons_before c (some (before, after)) = some (c ∷ before, after)

-- `strings.Cut(s, sep)` at a separator of one byte.
unfoldable pub cut : Text → ℕ → Option (Text × Text)
cut [] sep = none
cut (c ∷ s) sep = let rest = cut s sep in if nat_beq c sep then some ([], s) else cons_before c rest

-- `strings.HasPrefix(s, prefix)`
unfoldable pub has_prefix : Text → Text → Bool
has_prefix s [] = true
has_prefix [] (p ∷ ps) = false
has_prefix (c ∷ s) (p ∷ ps) = let rest = has_prefix s ps in if nat_beq c p then rest else false

-- `strings.Contains(s, sub)`
unfoldable pub has_substring : Text → Text → Bool
unfolding has_prefix
has_substring [] sub = has_prefix [] sub
has_substring (c ∷ s) sub =
    let rest = has_substring s sub in if has_prefix (c ∷ s) sub then true else rest

abbrev pub lower : ℕ → ℕ
lower c = if leb 65 c && leb c 90 then c + 32 else c

-- `strings.ToLower(s)`
unfoldable pub to_lower : Text → Text
to_lower [] = []
to_lower (c ∷ s) = lower c ∷ to_lower s

-- `strings.EqualFold(s, t)`
unfoldable pub equal_fold : Text → Text → Bool
unfolding to_lower text_beq
equal_fold s t = text_beq (to_lower s) (to_lower t)

-- The bytes up to the first white space, and the rest.
unfoldable pub first_field : Text → Text × Text
first_field [] = ([], [])
first_field (c ∷ s) =
    let rest = first_field s in if is_space c then ([], c ∷ s) else (c ∷ rest.0, rest.1)

-- The value of a run of decimal digits, at least one; `none` stands for a syntax error.
digits_from : ℕ → Text → Option ℕ
digits_from acc [] = some acc
digits_from acc (c ∷ s) =
    let rest = digits_from (acc * 10 + (c - 48)) s in if leb 48 c && leb c 57 then rest else none

digits : Text → Option ℕ
unfolding digits_from
digits [] = none
digits (c ∷ s) = digits_from 0 (c ∷ s)

abbrev below : ℕ → Option ℕ → Option ℕ
below n none = none
below n (some v) = if ltb v n then some v else none

abbrev to_pos : Option ℕ → Option ℤ
to_pos none = none
to_pos (some v) = some (pos v)

abbrev to_neg : Option ℕ → Option ℤ
to_neg none = none
to_neg (some zero) = some (pos 0)
to_neg (some (suc v)) = some (negsuc v)

-- `strconv.ParseInt(s, 10, 64)`; `none` is a syntax or a range error.
unfoldable pub parse_int64 : Text → Option ℤ
unfolding digits
parse_int64 [] = none
parse_int64 (c ∷ s) =
    if nat_beq c 45
    then to_neg (below 9_223_372_036_854_775_809 (digits s))
    else if nat_beq c 43
    then to_pos (below 9_223_372_036_854_775_808 (digits s))
    else to_pos (below 9_223_372_036_854_775_808 (digits (c ∷ s)))

-- The value of the digits in front, up to one past an unsigned 64-bit integer; `none` stands for a syntax
-- error, which is met before the value passes that bound.
scan_digits : ℕ → Text → Option ℕ
scan_digits acc [] = some acc
scan_digits acc (c ∷ s) =
    let value = acc * 10 + (c - 48) in
    let rest = scan_digits value s in
    if leb 48 c && leb c 57
    then (if leb 18_446_744_073_709_551_616 value then some value else rest)
    else none

scan : Text → Option ℕ
unfolding scan_digits
scan [] = none
scan (c ∷ s) = scan_digits 0 (c ∷ s)

abbrev clamp_pos : Option ℕ → ℤ
clamp_pos none = pos 0
clamp_pos (some v) =
    if ltb v 9_223_372_036_854_775_808 then pos v else pos 9_223_372_036_854_775_807

abbrev clamp_neg : Option ℕ → ℤ
clamp_neg none = pos 0
clamp_neg (some zero) = pos 0
clamp_neg (some (suc v)) =
    if ltb v 9_223_372_036_854_775_808 then negsuc v else negsuc 9_223_372_036_854_775_807

-- The value that `strconv.ParseInt(s, 10, 64)` returns with whatever error: 0 for a syntax error, the
-- nearest int64 for a range error.
unfoldable pub parse_clamped : Text → ℤ
unfolding scan
parse_clamped [] = pos 0
parse_clamped (c ∷ s) =
    if nat_beq c 45
    then clamp_neg (scan s)
    else if nat_beq c 43
    then clamp_pos (scan s)
    else clamp_pos (scan (c ∷ s))
