-- ===== src/Provider/Txt.antt =====
-- internal/provider/validate.go: the presentation form of TXT values. The reading and printing of
-- a TXT record are miekg/dns's, a parameter.
use external_dns_iij_dpf_web.Base.{
  Bool, List, Option, [], contains, eq_list, eq_ℕ, if◌then◌else◌, leb, length, nat_eq, none, some,
  suc, ℕ, ◌&&◌, ◌++◌, ◌/◌, ◌∷◌,
}
use external_dns_iij_dpf_web.Base.Int.{eq_ℤ}
use external_dns_iij_dpf_web.Base.Text.{Text, after_text, codes, replace_pair}
use external_dns_iij_dpf_web.Dnsname.Name.{eq_name}
use external_dns_iij_dpf_web.Errors.{Result, err, ok, plain, ◌>>=◌}

-- `dns.NewRR` on "txt-parse.invalid. 0 IN TXT " with a value behind it, and `String` of its result.
-- `strings` is the field `Txt`; none is an error, or a record that is no `*dns.TXT`.
pub record TxtCodec : Type 1 where
  pub Rr : Type 0
  pub new_rr : Text → Option Rr
  pub strings : Rr → List Text
  pub print : Rr → Text

abbrev pub quote : ℕ
quote = 0x22

abbrev pub backslash : ℕ
backslash = 92

abbrev pub has_quote : Text → Bool
has_quote v = contains v quote

-- The loop of `countQuotedSegments`: a backslash skips what follows it.
unfoldable pub count_quotes : Text → ℕ
count_quotes [] = 0
count_quotes (c ∷ []) = if nat_eq c quote then 1 else 0
count_quotes (c ∷ x ∷ s) =
    let escaped = count_quotes s in
    let rest = count_quotes (x ∷ s) in
    if nat_eq c backslash then escaped else if nat_eq c quote then suc rest else rest

unfoldable pub count_quoted_segments : Text → ℕ
count_quoted_segments value = if has_quote value then count_quotes value / 2 else 1

-- The argument of `NewRR` behind the fixed prefix: an unquoted value is put in quotes. The Go
-- literals are raw strings: `\\` is two backslashes and `\\\\` is four.
unfoldable pub quoted : Text → Text
quoted value =
    if has_quote value
    then value
    else quote
      ∷ (replace_pair backslash backslash (backslash ∷ backslash ∷ backslash ∷ backslash ∷ []) value
          ++ quote ∷ [])

module _ (t : TxtCodec) where
  open t use {Rr, new_rr, strings, print}

  unfoldable pub parse_txt : Text → Result Rr
  parse_txt value = elim (new_rr (codes "txt-parse.invalid. 0 IN TXT " ++ quoted value)) [
    | none ↦ err plain
    | some rr ↦ ok rr
  ]

  unfoldable pub split_txt : Text → Result (List Text)
  split_txt value = do txt ← parse_txt value; ok (strings txt)

  unfoldable pub txt_rdata : Rr → Text → Result Text
  txt_rdata txt value = elim (after_text (codes "TXT" ++ 9 ∷ []) (print txt)) [
    | none ↦ err plain
    | some rdata ↦ ok rdata
  ]

  unfoldable pub normalize_txt : Text → Result Text
  normalize_txt value = parse_txt value >>= λ txt.
      if leb (length (strings txt)) (count_quoted_segments value) && has_quote value
      then ok value
      else txt_rdata txt value
