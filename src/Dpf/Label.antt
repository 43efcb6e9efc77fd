-- ===== src/Dpf/Label.antt =====
-- internal/dpf/label.go: the mark on the records that this service writes.
use external_dns_iij_dpf_web.Base.{
  List, Option, [], contains, eq_list, eq_ℕ, if◌then◌else◌, is_empty, keep_some, map, none, some,
  ◌∷◌,
}
use external_dns_iij_dpf_web.Base.Int.{eq_ℤ}
use external_dns_iij_dpf_web.Base.Text.{Text, codes}
use external_dns_iij_dpf_web.Dnsname.Name.{eq_name}
use external_dns_iij_dpf_web.Dpf.Rrtype.{eq_rrtype}
use external_dns_iij_dpf_web.Dpf.Wire.{MergeKey, WireRecord, eq_merge_key, provider_key, raw_key}
use external_dns_iij_dpf_web.Errors.{err, ok}
use external_dns_iij_dpf_web.Provider.Types.{ChangeSet, Record, added_records}

abbrev pub managed_by_label_key : Text
managed_by_label_key = codes "managed-by"

abbrev pub apply_attribution : Text
apply_attribution = codes "external-dns-iij-dpf-webhook"

abbrev pub managed_by : List (Text × Text)
managed_by = (managed_by_label_key, apply_attribution) ∷ []

-- What `changedKeys` keeps of a record: no key where the type is not supported.
abbrev pub changed_key : Record → Option MergeKey
changed_key r = elim (provider_key r) [ ok k ↦ some k | err e ↦ none ]

unfoldable pub changed_keys : ChangeSet → List MergeKey
changed_keys cs = keep_some changed_key (added_records cs)

abbrev pub mark : List MergeKey → WireRecord → WireRecord
mark changed r = if contains changed (raw_key r) then record r { labels = some managed_by } else r

unfoldable pub apply_managed_by : List WireRecord → ChangeSet → List WireRecord
unfolding changed_keys
apply_managed_by set cs =
    if is_empty (changed_keys cs) then set else map (mark (changed_keys cs)) set
