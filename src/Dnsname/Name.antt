-- ===== src/Dnsname/Name.antt =====
-- internal/dnsname/name.go: names in canonical form.
use external_dns_iij_dpf_web.Base.{
  ℕ, Bool, true, List, [], ◌≡◌, ◌↔◌, arith, if◌then◌else◌, Eq, list_eq, list_eq_iff, eq_ℕ, is_empty,
}
use external_dns_iij_dpf_web.Base.Text.{Text, codes, trim_space, join}
use external_dns_iij_dpf_web.Errors.{Result, ok, err, sentinel, wrap, err_invalid_name}

-- What the program calls of miekg/dns: `CanonicalName`, the second result of `IsDomainName`,
-- `SplitDomainName`, `CountLabel` and `IsSubDomain` (parent first).
pub record Dns : Type 0 where
  pub canonical_name : Text → Text
  pub is_domain_name : Text → Bool
  pub split_domain_name : Text → List Text
  pub count_label : Text → ℕ
  pub is_sub_domain : Text → Text → Bool

-- `canonical` is "" in the zero value.
pub record Name : Type 0 where
  pub canonical : Text

abbrev pub no_name : Name
no_name = record { canonical = [] }

abbrev pub name_eq : Name → Name → Bool
name_eq a b = list_eq a.canonical b.canonical

pub name_eq_iff : (a b : Name) → (name_eq a b ≡ true) ↔ (a ≡ b)
name_eq_iff a b = ground (arith, list_eq_iff a.canonical b.canonical)

instance abbrev pub eq_name : Eq Name
eq_name = record { same = name_eq; same_iff = name_eq_iff }

abbrev pub is_zero : Name → Bool
is_zero n = is_empty n.canonical

module _ (d : Dns) where
  unfoldable pub parse : Text → Result Name
  parse s =
      let t = trim_space s in
      let c = d.canonical_name t in
      if is_empty t
      then err (wrap (sentinel err_invalid_name))
      else if d.is_domain_name c
      then ok (record { canonical = c })
      else err (wrap (sentinel err_invalid_name))

  unfoldable pub unqualified : Name → Text
  unqualified n = if is_zero n then [] else join (codes ".") (d.split_domain_name n.canonical)

  unfoldable pub labels : Name → List Text
  labels n = if is_zero n then [] else d.split_domain_name n.canonical

  unfoldable pub count_labels : Name → ℕ
  count_labels n = if is_zero n then 0 else d.count_label n.canonical
