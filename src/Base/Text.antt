-- ===== src/Base/Text.antt =====
-- Go's `string` as the list of its code points, and what the program uses of `strings` and
-- `strconv`. A text from a JSON document or a flag is valid UTF-8, whose bytes sort and compare as
-- the code points do.
use Prim.Native.Nat.{ℕ, ◌+◌, ◌*◌, ◌-◌, ◌^◌}
use Prim.Native.Char.{code}
use Prim.Native.String.{String}
use mathlib.Core.Bool.{Bool, true, false, ◌&&◌, ◌||◌}
use mathlib.Core.Option.{Option, none, some}
use mathlib.Core.List.{List, [], ◌∷◌, ◌++◌, reverse}
use external_dns_iij_dpf_web.Base.Tests.{ltb, leb, nat_eq, if◌then◌else◌}
use external_dns_iij_dpf_web.Base.Lists.{is_empty}
use external_dns_iij_dpf_web.Base.Int.{ℤ, pos, negsuc}

abbrev pub Text : Type 0
Text = List ℕ

abbrev pub codes : String → Text
codes String.[] = []
codes (String.◌∷◌ c s) = code c ∷ codes s

-- `unicode.IsSpace`.
abbrev pub is_space : ℕ → Bool
is_space c =
    (leb 9 c && leb c 13)
    || nat_eq c 0x20
    || nat_eq c 0x85
    || nat_eq c 0xa0
    || nat_eq c 0x1680
    || (leb 0x2000 c && leb c 0x200a)
    || nat_eq c 0x2028
    || nat_eq c 0x2029
    || nat_eq c 0x202f
    || nat_eq c 0x205f
    || nat_eq c 0x3000

unfoldable pub trim_left : Text → Text
trim_left [] = []
trim_left (c ∷ s) = let rest = trim_left s in if is_space c then rest else c ∷ s

-- `strings.TrimSpace`.
unfoldable pub trim_space : Text → Text
unfolding trim_left
trim_space s = reverse (trim_left (reverse (trim_left s)))

abbrev pub is_prefix : Text → Text → Bool
is_prefix [] s = true
is_prefix (p ∷ ps) [] = false
is_prefix (p ∷ ps) (c ∷ s) = nat_eq p c && is_prefix ps s

-- `strings.Index`: what stands behind the first occurrence of `sub`.
unfoldable pub contains_text : Text → Text → Bool
contains_text sub [] = is_empty sub
contains_text sub (c ∷ s) = is_prefix sub (c ∷ s) || contains_text sub s

abbrev pub drop_text : Text → Text → Text
drop_text [] s = s
drop_text (p ∷ ps) [] = []
drop_text (p ∷ ps) (c ∷ s) = drop_text ps s

-- `s[strings.Index(s, sub) + len(sub):]`, none where `sub` does not occur.
unfoldable pub after_text : Text → Text → Option Text
after_text sub [] = if is_empty sub then some [] else none
after_text sub (c ∷ s) =
    let rest = after_text sub s in
    if is_prefix sub (c ∷ s) then some (drop_text sub (c ∷ s)) else rest

-- `strings.Join`.
unfoldable pub join : Text → List Text → Text
join sep [] = []
join sep (x ∷ []) = x
join sep (x ∷ xs) = x ++ (sep ++ join sep xs)

-- `strings.Fields`: `cur` is the field that is being read.
fields_from : Text → Text → List Text
fields_from cur [] = if is_empty cur then [] else cur ∷ []
fields_from cur (c ∷ s) =
    let more = fields_from (cur ++ c ∷ []) s in
    let closed = fields_from [] s in
    if is_space c then (if is_empty cur then closed else cur ∷ closed) else more

unfoldable pub fields : Text → List Text
unfolding fields_from
fields s = fields_from [] s

-- The part before the first space, or the whole text: `strings.Cut(s, " ")`.
unfoldable pub before_space : Text → Text
before_space [] = []
before_space (c ∷ s) = let rest = before_space s in if nat_eq c 0x20 then [] else c ∷ rest

-- `strings.ReplaceAll(s, from, to)` at a `from` of two runes.
unfoldable pub replace_pair : ℕ → ℕ → Text → Text → Text
replace_pair a b to [] = []
replace_pair a b to (c ∷ []) = c ∷ []
replace_pair a b to (c ∷ d ∷ s) =
    let hit = replace_pair a b to s in
    let miss = replace_pair a b to (d ∷ s) in
    if nat_eq c a && nat_eq d b then to ++ hit else c ∷ miss

abbrev pub is_digit : ℕ → Bool
is_digit c = leb b'0' c && leb c b'9'

digits_from : ℕ → Text → Option ℕ
digits_from n [] = some n
digits_from n (c ∷ s) =
    let rest = digits_from (n * 10 + (c - b'0')) s in if is_digit c then rest else none

unfoldable pub digits : Text → Option ℕ
unfolding digits_from
digits [] = none
digits (c ∷ s) = digits_from 0 (c ∷ s)

abbrev positive : Option ℕ → Option ℤ
positive none = none
positive (some n) = if ltb n (2 ^ 63) then some (pos n) else none

abbrev negative : Option ℕ → Option ℤ
negative none = none
negative (some n) =
    if nat_eq n 0 then some (pos 0) else if leb n (2 ^ 63) then some (negsuc (n - 1)) else none

-- `strconv.Atoi` on a 64-bit machine: an optional sign and decimal digits, within an `int64`.
unfoldable pub atoi : Text → Option ℤ
unfolding digits
atoi [] = none
atoi (c ∷ s) =
    if nat_eq c b'-'
    then negative (digits s)
    else if nat_eq c b'+'
    then positive (digits s)
    else positive (digits (c ∷ s))

-- `strings.Compare(a, b) <= 0`.
unfoldable pub text_le : Text → Text → Bool
text_le [] t = true
text_le (c ∷ s) [] = false
text_le (c ∷ s) (d ∷ t) = ltb c d || (nat_eq c d && text_le s t)
