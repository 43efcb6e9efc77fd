-- ===== src/Dpf/Guard.antt =====
-- internal/dpf/merge.go: `guard`, the check before a set is submitted, and `unchanged`.
use external_dns_iij_dpf_web.Base.{
  Bool, List, Option, [], all, contains, eq_list, eq_ℕ, false, length, lookup, map, nat_eq, none,
  some, true, ◌&&◌, ◌==◌, ◌||◌, ◌∷◌,
}
use external_dns_iij_dpf_web.Base.Int.{eq_ℤ, ℤ}
use external_dns_iij_dpf_web.Base.Text.{Text}
use external_dns_iij_dpf_web.Dnsname.Name.{Dns, eq_name}
use external_dns_iij_dpf_web.Dpf.Rrtype.{eq_rrtype}
use external_dns_iij_dpf_web.Dpf.Wire.{
  MergeKey, WireRecord, eq_merge_key, provider_key, raw_key, wire_key,
}
use external_dns_iij_dpf_web.Errors.{Error, Result, err_temporary, ok, sentinel, wrap, ◌>>=◌}
use external_dns_iij_dpf_web.Provider.Types.{ChangeSet, Record}
use external_dns_iij_dpf_web.Provider.Validate.{check}

-- An error that wraps `ErrTemporary` alone.
abbrev pub aborted : Error
aborted = wrap (sentinel err_temporary)

-- `requested`: the keys of the records to delete.
unfoldable pub requested_keys : List Record → Result (List MergeKey)
requested_keys [] = ok []
requested_keys (r ∷ rs) = provider_key r >>= λ k. requested_keys rs >>= λ ks. ok (k ∷ ks)

module _ (d : Dns) where
  abbrev pub covered : List MergeKey → List MergeKey → WireRecord → Bool
  covered submitted requested r =
      contains submitted (wire_key d r) || contains requested (wire_key d r)

  unfoldable pub guard : List WireRecord → List WireRecord → ChangeSet → Result (Unit {0})
  guard current set cs = requested_keys cs.remove >>= λ requested.
      check (all (covered (map (λ o. raw_key o) set) requested) current) aborted

abbrev pub label_list : Option (List (Text × Text)) → List (Text × Text)
label_list none = []
label_list (some ls) = ls

abbrev pub has_label : List (Text × Text) → Text × Text → Bool
has_label ls (k, v) = elim (lookup k ls) [ none ↦ false | some w ↦ v == w ]

-- `maps.Equal`: as many entries, and each of the first in the second.
unfoldable pub same_labels : Option (List (Text × Text)) → Option (List (Text × Text)) → Bool
same_labels a b =
    nat_eq (length (label_list a)) (length (label_list b))
    && all (has_label (label_list b)) (label_list a)

abbrev pub same_ttl : Option ℤ → Option ℤ → Bool
same_ttl none none = true
same_ttl (some a) (some b) = a == b
same_ttl none (some b) = false
same_ttl (some a) none = false

abbrev pub same_value : Option Text → Option Text → Bool
same_value none none = true
same_value (some a) (some b) = a == b
same_value none (some b) = false
same_value (some a) none = false

abbrev pub same_rdata : List (Option Text) → List (Option Text) → Bool
same_rdata [] [] = true
same_rdata (x ∷ xs) (y ∷ ys) = same_value x y && same_rdata xs ys
same_rdata [] (y ∷ ys) = false
same_rdata (x ∷ xs) [] = false

unfoldable pub same_record : WireRecord → WireRecord → Bool
unfolding same_labels
same_record a b =
    a.name == b.name
    && a.rrtype == b.rrtype
    && a.description == b.description
    && same_labels a.labels b.labels
    && same_ttl a.ttl b.ttl
    && same_rdata a.rdata b.rdata

unfoldable pub unchanged : List WireRecord → List WireRecord → Bool
unfolding same_record
unchanged [] [] = true
unchanged (a ∷ as') (b ∷ bs) = same_record a b && unchanged as' bs
unchanged [] (b ∷ bs) = false
unchanged (a ∷ as') [] = false
