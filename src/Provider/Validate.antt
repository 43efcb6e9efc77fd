-- ===== src/Provider/Validate.antt =====
-- internal/provider/validate.go: what can be checked before the backend is asked.
use external_dns_iij_dpf_web.Base.{
  Bool, List, [], all, contains, eq_list, eq_ℕ, false, if◌then◌else◌, insert, leb, length, lookup,
  nat_eq, none, not, some, suc, true, zero, ℕ, ◌&&◌, ◌==◌, ◌||◌, ◌∷◌,
}
use external_dns_iij_dpf_web.Base.Int.{eq_ℤ, ltb_ℤ, pos, ℤ}
use external_dns_iij_dpf_web.Base.Text.{Text, atoi, fields}
use external_dns_iij_dpf_web.Dnsname.Name.{Dns, Name, eq_name, labels}
use external_dns_iij_dpf_web.Errors.{
  Error, Result, err, err_permanent, ok, sentinel, wrap, wrap2, ◌>>◌,
}
use external_dns_iij_dpf_web.Provider.Adjust.{ttl_max, ttl_min, ttl_unset}
use external_dns_iij_dpf_web.Provider.Txt.{TxtCodec, split_txt}
use external_dns_iij_dpf_web.Provider.Types.{
  ChangeSet, Record, RecordType, added_records, all_records, is_supported_record_type, type_a,
  type_aaaa, type_cname, type_mx, type_srv, type_txt, unsupported,
}

abbrev pub numeric_field_max : ℤ
numeric_field_max = pos 65535

-- An error that wraps `ErrPermanent` alone.
abbrev pub permanent : Error
permanent = wrap (sentinel err_permanent)

abbrev pub check : Bool → Error → Result (Unit {0})
check true e = ok tt
check false e = err e

-- A loop that returns the first error.
unfoldable pub each {ℓ} : {A : Type ℓ} → (A → Result (Unit {0})) → List A → Result (Unit {0})
each f [] = ok tt
each f (x ∷ xs) = f x >> each f xs

module _ (d : Dns) where
  unfoldable pub validate_no_underscore : Record → Result (Unit {0})
  unfolding each
  validate_no_underscore r = each (λ l. check (not (contains l b'_')) permanent) (labels d r.name)

unfoldable pub validate_single_value : Record → Result (Unit {0})
validate_single_value r = check (nat_eq (length r.values) 1) permanent

-- `strconv.Atoi` succeeds, within 0 and 65535.
unfoldable pub numeric_field : Text → Bool
numeric_field f = elim (atoi f) [
  | none ↦ false
  | some n ↦ not (ltb_ℤ n (pos 0)) && not (ltb_ℤ numeric_field_max n)
]

abbrev pub first_ok : ℕ → (Text → Bool) → List Text → Bool
first_ok zero p fs = true
first_ok (suc n) p [] = true
first_ok (suc n) p (f ∷ fs) = p f && first_ok n p fs

unfoldable pub validate_numeric_value : ℕ → ℕ → Text → Result (Unit {0})
unfolding numeric_field
validate_numeric_value n want v = do
  check (nat_eq (length (fields v)) want) permanent
  check (first_ok n numeric_field (fields v)) permanent

unfoldable pub validate_numeric_prefix : Record → ℕ → ℕ → Result (Unit {0})
unfolding each validate_numeric_value
validate_numeric_prefix r n want = each (validate_numeric_value n want) r.values

abbrev pub valid_ttl : ℤ → Bool
valid_ttl ttl = ttl == ttl_unset || (not (ltb_ℤ ttl ttl_min) && not (ltb_ℤ ttl_max ttl))

-- `added`: for each name the set of its types.
unfoldable pub add_type : List (Name × List RecordType) → Record → List (Name × List RecordType)
unfolding insert
add_type m r = elim (lookup r.name m) [
  | none ↦ insert r.name (r.rtype ∷ []) m
  | some ts ↦ if contains ts r.rtype then m else insert r.name (r.rtype ∷ ts) m
]

unfoldable pub added_types :
    List (Name × List RecordType) → List Record → List (Name × List RecordType)
unfolding add_type
added_types m [] = m
added_types m (r ∷ rs) = added_types (add_type m r) rs

abbrev pub exclusive : Name × List RecordType → Bool
exclusive (name, types) = not (contains types type_cname) || leb (length types) 1

-- Which of several offending names is named in the error depends on the map's order.
unfoldable pub validate_cname_exclusivity : ChangeSet → Result (Unit {0})
unfolding added_types
validate_cname_exclusivity cs = check (all exclusive (added_types [] (added_records cs))) permanent

module _ (d : Dns) (t : TxtCodec) where
  -- The error of the TXT reader is wrapped behind `ErrPermanent`.
  unfoldable pub validate_txt_value : Text → Result (Unit {0})
  validate_txt_value v = elim (split_txt t v) [
    | ok strings ↦ ok tt
    | err e ↦ err (wrap2 (sentinel err_permanent) e)
  ]

  unfoldable pub validate_txt : Record → Result (Unit {0})
  unfolding each validate_txt_value
  validate_txt r = each validate_txt_value r.values

  unfoldable pub validate_rdata : Record → Result (Unit {0})
  validate_rdata r =
      if r.rtype == type_a || r.rtype == type_aaaa
      then validate_no_underscore d r
      else if r.rtype == type_cname
      then validate_single_value r
      else if r.rtype == type_txt
      then validate_txt r
      else if r.rtype == type_mx
      then validate_numeric_prefix r 1 2
      else if r.rtype == type_srv
      then validate_numeric_prefix r 3 4
      else ok tt

  unfoldable pub validate_record : Record → Result (Unit {0})
  validate_record r = do
    check (is_supported_record_type r.rtype) unsupported
    check (valid_ttl r.ttl) permanent
    validate_rdata r

  unfoldable pub validate_format : ChangeSet → Result (Unit {0})
  unfolding each
  validate_format cs = each validate_record (all_records cs) >> validate_cname_exclusivity cs
