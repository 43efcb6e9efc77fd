-- ===== src/Tests/Publishing.antt =====
-- The theorems on what DPF publishes in all zones.
use external_dns_iij_dpf_web.Base.{
  [], any, ap, delete, eq_list, eq_ℕ, false, inl, inr, insert, list_eq, none, refl, some, subst,
  sym, true, ◌==◌, ◌∙◌, ◌∷◌, ◌≡◌, ◌≢◌, ◌⊎◌,
}
use external_dns_iij_dpf_web.Base.Int.{eq_ℤ}
use external_dns_iij_dpf_web.Base.Text.{Text, codes, text_le, trim_left, trim_space}
use external_dns_iij_dpf_web.Composed.Grouped.{HasIds}
use external_dns_iij_dpf_web.Composed.Published.{
  apply_changes-leaves, apply_changes-publishes, apply_changes-removes,
}
use external_dns_iij_dpf_web.Composed.Repeats.{apply_changes-NoRepeats}
use external_dns_iij_dpf_web.Dnsname.Name.{count_labels, eq_name, labels, parse}
use external_dns_iij_dpf_web.Dnsname.Scope.{
  contains_name, deeper, in_scope, longest_from, longest_match,
}
use external_dns_iij_dpf_web.Dpf.Apply.{edit, submit_or_skip}
use external_dns_iij_dpf_web.Dpf.Client.{
  ClientState, client_apply, client_backend, list_zones, listing, observe,
}
use external_dns_iij_dpf_web.Dpf.Content.{has_merge_key}
use external_dns_iij_dpf_web.Dpf.Guard.{guard, requested_keys, same_labels, same_record, unchanged}
use external_dns_iij_dpf_web.Dpf.Label.{apply_managed_by, changed_keys}
use external_dns_iij_dpf_web.Dpf.Merge.{
  collect, drop_all, drop_record, merge, merge_state, non_nil_labels, put_all, put_all_current,
  put_current, put_record,
}
use external_dns_iij_dpf_web.Dpf.Preserved.{HasValues, NoRepeats}
use external_dns_iij_dpf_web.Dpf.Repeats.{IsApart}
use external_dns_iij_dpf_web.Dpf.Rrtype.{eq_rrtype, to_dpf}
use external_dns_iij_dpf_web.Dpf.Wire.{
  MergeKey, WireRecord, eq_merge_key, key_of, normalize_values, provider_key, to_ttl, wire_key,
}
use external_dns_iij_dpf_web.Errors.{ok, ok-injective}
use external_dns_iij_dpf_web.Provider.Apply.{
  apply_changes, apply_groups, apply_in_scope, assign, assign_all, filter_to_scope, group_by_zone,
  insert_group, sort_groups,
}
use external_dns_iij_dpf_web.Provider.Types.{
  ChangeSet, Record, Zone, added_records, all_records, is_supported_record_type,
}
use external_dns_iij_dpf_web.Provider.Validate.{
  add_type, added_types, each, validate_cname_exclusivity, validate_format, validate_no_underscore,
  validate_rdata, validate_record,
}
use external_dns_iij_dpf_web.Provider.Zoneindex.{index_from, new_zone_index, owner}
use external_dns_iij_dpf_web.Telemetry.Metrics.{eq_attributes}
use external_dns_iij_dpf_web.Tests.ExampleDns.{dot_split, dotted, example_dns, with_dot}
use external_dns_iij_dpf_web.Tests.Examples.{example_txt, key_a, name_of, record_a, wire_a}
use external_dns_iij_dpf_web.Tests.Serving.{mixed, one_domain, two_zones}
use external_dns_iij_dpf_web.Tests.Storing.{
  Zones, storing-DpfLaws, storing_client, with_zone, zone_kept,
}
use mathlib.Core.List.{Memᴰ}

-- A record is deleted, another one is created, and a third is out of scope.
abbrev moving : ChangeSet
moving = record mixed { remove = record_a "m.b.c." "8" ∷ [] }

-- The zone `b.c.` has two records.
abbrev two_kept : ClientState Zones (Unit {0})
two_kept = record {
  api =
      with_zone (codes "2") (wire_a "k.b.c." none "9" ∷ wire_a "m.b.c." none "8" ∷ [])
        (λ other. []);
  measured = tt;
}

abbrev with_moved : ClientState Zones (Unit {0})
with_moved =
    (apply_changes example_dns example_txt one_domain
      (client_backend storing_client example_dns example_txt) moving two_kept).1

published-moved :
    apply_changes example_dns example_txt one_domain
      (client_backend storing_client example_dns example_txt)
      moving
      two_kept
    ≡ (ok tt, with_moved)
unfolding apply_changes apply_in_scope apply_groups client_backend client_apply list_zones listing
    observe edit submit_or_skip guard merge merge_state put_all_current put_current drop_all
    drop_record put_all put_record collect wire_key key_of parse provider_key to_dpf
    normalize_values to_ttl insert delete dotted with_dot trim_space trim_left apply_managed_by
    changed_keys unchanged same_record same_labels requested_keys filter_to_scope in_scope
    longest_match longest_from deeper contains_name count_labels dot_split validate_format each
    validate_record is_supported_record_type all_records validate_rdata validate_no_underscore
    labels validate_cname_exclusivity added_types add_type group_by_zone assign_all assign owner
    new_zone_index index_from sort_groups insert_group text_le
published-moved = refl

listed-storing : (list_zones storing_client example_dns two_kept).0 ≡ ok two_zones
unfolding list_zones listing observe parse dotted with_dot trim_space trim_left
listed-storing = refl

one_of :
    (z : Zone)
    → Memᴰ z two_zones
    → ((z.name ≡ name_of "c.") × (z.id ≡ codes "1"))
      ⊎ ((z.name ≡ name_of "b.c.") × (z.id ≡ codes "2"))
one_of z (Memᴰ.head e) = inl (ap (λ (z : Zone). z.name) e, ap (λ (z : Zone). z.id) e)
one_of z (Memᴰ.tail (Memᴰ.head e)) = inr (ap (λ (z : Zone). z.name) e, ap (λ (z : Zone). z.id) e)
one_of z (Memᴰ.tail (Memᴰ.tail m)) = elim m [ ]

other_ids : codes "1" ≢ codes "2"
other_ids e = cc (ap (λ (t : Text). list_eq t (codes "1")) e)

two_zones-HasIds : HasIds two_zones
two_zones-HasIds y z m n same = elim (one_of y m) [
  | inl a ↦ elim (one_of z n) [
    | inl b ↦ a.0 ∙ sym b.0
    | inr b ↦ absurd (other_ids (sym a.1 ∙ same ∙ b.1))
  ]
  | inr a ↦ elim (one_of z n) [
    | inl b ↦ absurd (other_ids (sym b.1 ∙ sym same ∙ a.1))
    | inr b ↦ a.0 ∙ sym b.0
  ]
]

only_one :
    (q : Record)
    → Memᴰ q (added_records (filter_to_scope example_dns one_domain moving))
    → has_merge_key (key_a "a.b.c.") q ≡ true
    → q ≡ record_a "a.b.c." "1"
unfolding filter_to_scope in_scope longest_match longest_from deeper contains_name count_labels
    dot_split
only_one q (Memᴰ.head e) h = e
only_one q (Memᴰ.tail m) h = elim m [ ]

apply_changes-publishes_example :
    (z : Zone) × Memᴰ z two_zones
    × ((y : Zone) × (owner example_dns (new_zone_index two_zones) (name_of "a.b.c.") ≡ some y)
        × (y.name ≡ z.name))
    × ((v : WireRecord) × Memᴰ v (zone_kept z.id with_moved.api)
        × (wire_key example_dns v ≡ key_a "a.b.c.")
        × HasValues example_txt (record_a "a.b.c." "1") v)
unfolding provider_key to_dpf filter_to_scope in_scope longest_match longest_from deeper
    contains_name count_labels dot_split parse dotted with_dot trim_space trim_left
apply_changes-publishes_example =
    apply_changes-publishes example_dns example_txt storing_client zone_kept storing-DpfLaws
      one_domain moving two_kept with_moved two_zones (record_a "a.b.c." "1") (key_a "a.b.c.")
      published-moved listed-storing two_zones-HasIds (Memᴰ.head refl) refl refl only_one

abbrev kept : WireRecord
kept = wire_a "k.b.c." none "9"

apply_changes-leaves_example :
    Memᴰ kept (zone_kept (codes "2") with_moved.api)
    ⊎ Memᴰ (non_nil_labels kept) (zone_kept (codes "2") with_moved.api)
unfolding provider_key to_dpf filter_to_scope in_scope longest_match longest_from deeper
    contains_name count_labels dot_split wire_key key_of parse dotted with_dot trim_space trim_left
apply_changes-leaves_example =
    apply_changes-leaves example_dns example_txt storing_client zone_kept storing-DpfLaws one_domain
      moving two_kept with_moved two_zones (codes "2") kept published-moved listed-storing
      two_zones-HasIds ((refl, tt), (tt, tt)) (Memᴰ.head refl) refl (refl, refl)

apply_changes-removes_example :
    (z : Zone) × Memᴰ z two_zones
    × ((y : Zone) × (owner example_dns (new_zone_index two_zones) (name_of "m.b.c.") ≡ some y)
        × (y.name ≡ z.name))
    × (any (λ v. wire_key example_dns v == key_a "m.b.c.") (zone_kept z.id with_moved.api) ≡ false)
unfolding provider_key to_dpf filter_to_scope in_scope longest_match longest_from deeper
    contains_name count_labels dot_split parse dotted with_dot trim_space trim_left
apply_changes-removes_example =
    apply_changes-removes example_dns example_txt storing_client zone_kept storing-DpfLaws
      one_domain moving two_kept with_moved two_zones (record_a "m.b.c." "8") (key_a "m.b.c.")
      published-moved listed-storing two_zones-HasIds (Memᴰ.head refl) refl (refl, tt) refl

moving-IsApart : IsApart (filter_to_scope example_dns one_domain moving)
unfolding provider_key to_dpf filter_to_scope in_scope longest_match longest_from deeper
    contains_name count_labels dot_split
moving-IsApart r (Memᴰ.head m) k e =
    let same : key_a "a.b.c." ≡ k =
      ok-injective (subst (λ (q : Record). provider_key q ≡ ok k) m e) in
    subst
      (λ (j : MergeKey).
        any (has_merge_key j) (filter_to_scope example_dns one_domain moving).remove ≡ false)
      same refl
moving-IsApart r (Memᴰ.tail m) k e = elim m [ ]

apply_changes-NoRepeats_example : NoRepeats example_dns (zone_kept (codes "2") with_moved.api)
unfolding filter_to_scope in_scope longest_match longest_from deeper contains_name count_labels
    dot_split parse wire_key key_of dotted with_dot trim_space trim_left
apply_changes-NoRepeats_example =
    apply_changes-NoRepeats example_dns example_txt storing_client zone_kept storing-DpfLaws
      one_domain moving two_kept with_moved two_zones (codes "2") published-moved listed-storing
      two_zones-HasIds (refl, tt) moving-IsApart ((refl, tt), (tt, tt))
