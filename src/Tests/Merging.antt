-- ===== src/Tests/Merging.antt =====
-- The theorems on merging, at a zone of two records.
use external_dns_iij_dpf_web.Base.{
  All, List, [], all, any, eq_list, eq_ℕ, false, map, refl, some, subst, ◌&&◌, ◌↔◌, ◌∙◌, ◌∷◌, ◌≡◌,
}
use external_dns_iij_dpf_web.Base.Int.{eq_ℤ}
use external_dns_iij_dpf_web.Dnsname.Name.{eq_name}
use external_dns_iij_dpf_web.Dpf.Apply.{edit}
use external_dns_iij_dpf_web.Dpf.Content.{has_merge_key}
use external_dns_iij_dpf_web.Dpf.Editing.{edit-merge}
use external_dns_iij_dpf_web.Dpf.Guard.{guard, requested_keys, same_labels, same_record, unchanged}
use external_dns_iij_dpf_web.Dpf.Guarded.{IsKept, guard-merge, guard_iff}
use external_dns_iij_dpf_web.Dpf.Keyed.{mem-merge-own_key}
use external_dns_iij_dpf_web.Dpf.Label.{apply_managed_by, changed_keys, managed_by}
use external_dns_iij_dpf_web.Dpf.Labelled.{apply_managed_by-eq-map, marked}
use external_dns_iij_dpf_web.Dpf.Membership.{merged}
use external_dns_iij_dpf_web.Dpf.Merge.{merge}
use external_dns_iij_dpf_web.Dpf.Preserved.{NoRepeats}
use external_dns_iij_dpf_web.Dpf.Repeats.{IsApart, merge-NoRepeats}
use external_dns_iij_dpf_web.Dpf.Rrtype.{eq_rrtype, to_dpf}
use external_dns_iij_dpf_web.Dpf.Succeeding.{can_put, merge-is_ok}
use external_dns_iij_dpf_web.Dpf.Wire.{MergeKey, WireRecord, eq_merge_key, provider_key, wire_key}
use external_dns_iij_dpf_web.Errors.{is_ok, ok, ok-injective}
use external_dns_iij_dpf_web.Provider.Types.{Record, added_records, is_supported_record_type}
use external_dns_iij_dpf_web.Telemetry.Metrics.{eq_attributes}
use external_dns_iij_dpf_web.Tests.ExampleDns.{example_dns}
use external_dns_iij_dpf_web.Tests.Examples.{
  changes, changes-IsParsed, example_txt, key_a, merge-published, merged_set, published,
  published-IsExact, wire_a,
}
use mathlib.Core.List.{Memᴰ}

mem-merge-own_key_example : Memᴰ (wire_a "c." (some []) "3") merged_set ↔ (
    merged example_dns example_txt
      (wire_key example_dns (wire_a "c." (some []) "3"))
      published
      changes
    ≡ some (wire_a "c." (some []) "3"))
mem-merge-own_key_example =
    mem-merge-own_key example_dns example_txt published changes merged_set merge-published
      changes-IsParsed (wire_a "c." (some []) "3")

guard_iff_example :
    (guard example_dns published merged_set changes ≡ ok tt)
    ↔ All (IsKept example_dns merged_set changes) published
unfolding requested_keys provider_key to_dpf
guard_iff_example = guard_iff example_dns published merged_set changes (key_a "b." ∷ []) refl

guard-merge_example :
    guard example_dns published (apply_managed_by merged_set changes) changes ≡ ok tt
guard-merge_example =
    guard-merge example_dns example_txt published changes merged_set merge-published
      published-IsExact

abbrev pub marked_set : List WireRecord
marked_set = wire_a "a." (some []) "1" ∷ wire_a "c." (some managed_by) "3" ∷ []

pub edit-published : edit example_dns example_txt changes published ≡ ok marked_set
unfolding apply_managed_by changed_keys unchanged same_record same_labels provider_key to_dpf
edit-published =
    edit-merge example_dns example_txt changes published merged_set merge-published
      published-IsExact
    ∙ refl

apply_managed_by-eq-map_example :
    apply_managed_by merged_set changes ≡ map (marked changes) merged_set
apply_managed_by-eq-map_example = apply_managed_by-eq-map merged_set changes

merge-is_ok_example : is_ok (merge example_dns example_txt published changes) ≡ (
    all (λ r. is_supported_record_type r.rtype) changes.remove
    && all (can_put example_txt) (added_records changes))
merge-is_ok_example = merge-is_ok example_txt example_dns published changes

changes-IsApart : IsApart changes
unfolding provider_key to_dpf
changes-IsApart r (Memᴰ.head m) k e =
    let same : key_a "c." ≡ k = ok-injective (subst (λ (q : Record). provider_key q ≡ ok k) m e) in
    subst (λ (j : MergeKey). any (has_merge_key j) changes.remove ≡ false) same refl
changes-IsApart r (Memᴰ.tail m) k e = elim m [ ]

merge-NoRepeats_example : NoRepeats example_dns merged_set
merge-NoRepeats_example =
    merge-NoRepeats example_dns example_txt published changes merged_set merge-published
      changes-IsParsed changes-IsApart
