-- ===== src/Tests/Asking.antt =====
-- The theorems on what is measured of an apply, and on what a backend is asked for.
use external_dns_iij_dpf_web.Base.{
  List, Option, [], eq_list, eq_ℕ, insert, length, refl, some, ℕ, ◌+◌, ◌∷◌, ◌≡◌,
}
use external_dns_iij_dpf_web.Base.Int.{eq_ℤ}
use external_dns_iij_dpf_web.Base.Text.{text_le}
use external_dns_iij_dpf_web.Dnsname.Name.{count_labels, eq_name, labels}
use external_dns_iij_dpf_web.Dnsname.Scope.{
  contains_name, deeper, in_scope, longest_from, longest_match,
}
use external_dns_iij_dpf_web.Dpf.Rrtype.{eq_rrtype}
use external_dns_iij_dpf_web.Dpf.Wire.{eq_merge_key}
use external_dns_iij_dpf_web.Errors.{ok}
use external_dns_iij_dpf_web.Provider.Apply.{
  Part, apply_changes, apply_groups, apply_in_scope, assign, assign_all, creating, deleting,
  filter_to_scope, group_by_zone, insert_group, part_of, sort_groups, updating,
}
use external_dns_iij_dpf_web.Provider.Asked.{IsGrown, IsSplit, apply_changes-asks}
use external_dns_iij_dpf_web.Provider.Counted.{measured_provider, observed_changes-counts}
use external_dns_iij_dpf_web.Provider.Counting.{IsOnce, applied_count, failure_count}
use external_dns_iij_dpf_web.Provider.Fake.{
  AppliedChange, Fake, fake_apply, fake_backend, fake_list_zones, new_fake,
}
use external_dns_iij_dpf_web.Provider.Observed.{
  Provider, World, apply_group, log_apply, log_change_set, log_each, new_provider, observed_changes,
  observed_groups, observed_in_scope, on_backend, on_lines, record_outcome, record_parts,
  with_telemetry,
}
use external_dns_iij_dpf_web.Provider.Observing.{observed_changes-apply_changes}
use external_dns_iij_dpf_web.Provider.Types.{ChangeSet, all_records, is_supported_record_type}
use external_dns_iij_dpf_web.Provider.Validate.{
  add_type, added_types, each, validate_cname_exclusivity, validate_format, validate_no_underscore,
  validate_rdata, validate_record,
}
use external_dns_iij_dpf_web.Provider.Zoneindex.{index_from, new_zone_index, owner}
use external_dns_iij_dpf_web.Telemetry.Metrics.{
  Metrics, add, eq_attributes, no_metrics, record_changes,
}
use external_dns_iij_dpf_web.Telemetry.Slog.{LogRecord}
use external_dns_iij_dpf_web.Tests.ExampleDns.{dot_split, example_dns}
use external_dns_iij_dpf_web.Tests.Examples.{example_txt}
use external_dns_iij_dpf_web.Tests.Observed.{keeping}
use external_dns_iij_dpf_web.Tests.Serving.{counting, mixed, one_domain, two_zones}

-- The order of the source's text.
abbrev pub in_order : Option Metrics → ChangeSet → List Part
in_order r cs = deleting ∷ creating ∷ updating ∷ []

in_order-IsOnce : (r : Option Metrics) (cs : ChangeSet) → IsOnce (in_order r cs)
in_order-IsOnce r cs creating = refl
in_order-IsOnce r cs updating = refl
in_order-IsOnce r cs deleting = refl

abbrev pub example_provider : Provider ℕ (List LogRecord) (Option Metrics)
example_provider = measured_provider one_domain counting keeping

abbrev pub at_start : World ℕ (List LogRecord) (Option Metrics)
at_start = record { behind = 0; lines = []; measured = some no_metrics }

observed_changes-apply_changes_example :
    ((observed_changes example_dns example_provider in_order example_txt mixed at_start).0
      ≡ (apply_changes example_dns example_txt example_provider.scope example_provider.backend mixed
          0).0)
    × (((observed_changes example_dns example_provider in_order example_txt mixed at_start).1
          ).behind
        ≡ (apply_changes example_dns example_txt example_provider.scope example_provider.backend
            mixed 0).1)
observed_changes-apply_changes_example =
    observed_changes-apply_changes example_dns example_provider in_order example_txt mixed at_start

abbrev after_mixed : World ℕ (List LogRecord) (Option Metrics)
after_mixed = (observed_changes example_dns example_provider in_order example_txt mixed at_start).1

applied-mixed :
    observed_changes example_dns example_provider in_order example_txt mixed at_start
    ≡ (ok tt, after_mixed)
unfolding observed_changes on_lines log_change_set log_each observed_in_scope on_backend
    observed_groups apply_group log_apply record_outcome record_parts with_telemetry new_provider
    filter_to_scope in_scope longest_match longest_from deeper contains_name count_labels dot_split
    validate_format each validate_record is_supported_record_type all_records validate_rdata
    validate_no_underscore labels validate_cname_exclusivity added_types add_type insert
    group_by_zone assign_all assign owner new_zone_index index_from sort_groups insert_group text_le
    record_changes add
applied-mixed = refl

observed_changes-counts_example :
    ((part : Part)
      → applied_count part after_mixed.measured
        ≡ applied_count part at_start.measured
          + length (part_of part (filter_to_scope example_dns one_domain mixed)))
    × (failure_count after_mixed.measured ≡ failure_count at_start.measured)
observed_changes-counts_example =
    observed_changes-counts example_dns example_txt one_domain counting keeping in_order
      in_order-IsOnce mixed at_start after_mixed no_metrics refl applied-mixed

abbrev at_first : Fake
at_first = record new_fake { zones = two_zones }

abbrev asked_mixed : Fake
asked_mixed = (apply_changes example_dns example_txt one_domain fake_backend mixed at_first).1

asks-mixed :
    apply_changes example_dns example_txt one_domain fake_backend mixed at_first
    ≡ (ok tt, asked_mixed)
unfolding apply_changes apply_in_scope apply_groups fake_backend fake_list_zones fake_apply
    filter_to_scope in_scope longest_match longest_from deeper contains_name count_labels dot_split
    validate_format each validate_record is_supported_record_type all_records validate_rdata
    validate_no_underscore labels validate_cname_exclusivity added_types add_type insert
    group_by_zone assign_all assign owner new_zone_index index_from sort_groups insert_group text_le
asks-mixed = refl

apply_changes-asks_example :
    (new : List AppliedChange) × IsGrown new at_first asked_mixed
    × IsSplit example_dns example_txt one_domain two_zones
        (filter_to_scope example_dns one_domain mixed)
        new
apply_changes-asks_example =
    apply_changes-asks example_dns example_txt one_domain mixed at_first asked_mixed asks-mixed
