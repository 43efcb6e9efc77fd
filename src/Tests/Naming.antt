-- ===== src/Tests/Naming.antt =====
-- The theorems on names and zones, at a scope and a list of zones of two.
use external_dns_iij_dpf_web.Base.{List, [], all, eq_list, eq_ℕ, insert, refl, ◌&&◌, ◌∷◌, ◌≡◌}
use external_dns_iij_dpf_web.Base.Int.{eq_ℤ}
use external_dns_iij_dpf_web.Base.Text.{codes, text_le}
use external_dns_iij_dpf_web.Dnsname.Longest.{IsDeepest, longest_match-IsDeepest}
use external_dns_iij_dpf_web.Dnsname.Name.{Name, count_labels, eq_name}
use external_dns_iij_dpf_web.Dnsname.Scope.{
  Scope, contains_name, deeper, longest_from, longest_match,
}
use external_dns_iij_dpf_web.Dpf.Rrtype.{eq_rrtype}
use external_dns_iij_dpf_web.Dpf.Wire.{eq_merge_key}
use external_dns_iij_dpf_web.Errors.{is_ok}
use external_dns_iij_dpf_web.Provider.Apply.{
  Part, ZoneGroup, assign, assign_all, group_by_zone, insert_group, part_of, sort_groups,
}
use external_dns_iij_dpf_web.Provider.Ownership.{IsOwner, owner-IsOwner}
use external_dns_iij_dpf_web.Provider.Splitting.{
  IsOwnGroup, group_by_zone-is_ok, group_by_zone-splits, has_owner,
}
use external_dns_iij_dpf_web.Provider.Types.{ChangeSet, Record, Zone}
use external_dns_iij_dpf_web.Provider.Zoneindex.{index_from, new_zone_index, owner}
use external_dns_iij_dpf_web.Telemetry.Metrics.{eq_attributes}
use external_dns_iij_dpf_web.Tests.ExampleDns.{dot_split, example_dns}
use external_dns_iij_dpf_web.Tests.Examples.{name_of, record_a}
use mathlib.Core.List.{Memᴰ}

abbrev example_scope : Scope
example_scope = record { domains = name_of "c." ∷ name_of "b.c." ∷ [] }

abbrev same_scope : Scope
same_scope = record { domains = name_of "b.c." ∷ name_of "c." ∷ [] }

swapped_domains :
    (y : Name)
    → Memᴰ y (name_of "c." ∷ name_of "b.c." ∷ [])
    → Memᴰ y (name_of "b.c." ∷ name_of "c." ∷ [])
swapped_domains y (Memᴰ.head e) = Memᴰ.tail (Memᴰ.head e)
swapped_domains y (Memᴰ.tail (Memᴰ.head e)) = Memᴰ.head e
swapped_domains y (Memᴰ.tail (Memᴰ.tail m)) = elim m [ ]

swapped_back :
    (y : Name)
    → Memᴰ y (name_of "b.c." ∷ name_of "c." ∷ [])
    → Memᴰ y (name_of "c." ∷ name_of "b.c." ∷ [])
swapped_back y (Memᴰ.head e) = Memᴰ.tail (Memᴰ.head e)
swapped_back y (Memᴰ.tail (Memᴰ.head e)) = Memᴰ.head e
swapped_back y (Memᴰ.tail (Memᴰ.tail m)) = elim m [ ]

longest_match-IsDeepest_example :
    IsDeepest example_dns
      (name_of "a.b.c.")
      (λ y. Memᴰ y example_scope.domains)
      (longest_match example_dns example_scope (name_of "a.b.c."))
longest_match-IsDeepest_example =
    longest_match-IsDeepest example_dns example_scope (name_of "a.b.c.")

abbrev example_zones : List Zone
example_zones =
    record { name = name_of "c."; id = codes "1" }
    ∷ record { name = name_of "b.c."; id = codes "2" }
    ∷ []

owner-IsOwner_example :
    IsOwner example_dns example_zones
      (name_of "a.b.c.")
      (owner example_dns (new_zone_index example_zones) (name_of "a.b.c."))
owner-IsOwner_example = owner-IsOwner example_dns example_zones (name_of "a.b.c.")

abbrev zone_changes : ChangeSet
zone_changes = record {
  create = record_a "a.b.c." "1" ∷ record_a "a.c." "2" ∷ [];
  update_to = [];
  remove = record_a "b.c." "3" ∷ [];
}

abbrev zone_groups : List ZoneGroup
zone_groups =
    record {
      zone = record { name = name_of "b.c."; id = codes "2" };
      changes = record {
        create = record_a "a.b.c." "1" ∷ [];
        update_to = [];
        remove = record_a "b.c." "3" ∷ [];
      };
    }
    ∷ record {
      zone = record { name = name_of "c."; id = codes "1" };
      changes = record { create = record_a "a.c." "2" ∷ []; update_to = []; remove = [] };
    }
    ∷ []

group_by_zone-splits_example :
    ((g : ZoneGroup) → Memᴰ g zone_groups → IsOwnGroup example_dns zone_changes example_zones g)
    × ((p : Part) (r : Record)
        → Memᴰ r (part_of p zone_changes)
        → (g : ZoneGroup) × Memᴰ g zone_groups × Memᴰ r (part_of p g.changes))
unfolding group_by_zone assign_all assign owner new_zone_index index_from insert longest_match
    longest_from deeper contains_name count_labels dot_split sort_groups insert_group text_le
group_by_zone-splits_example =
    group_by_zone-splits example_dns zone_changes example_zones zone_groups refl

group_by_zone-is_ok_example : is_ok (group_by_zone example_dns zone_changes example_zones) ≡ (
    all (has_owner example_dns (new_zone_index example_zones)) zone_changes.create
    && (all (has_owner example_dns (new_zone_index example_zones)) zone_changes.update_to
        && all (has_owner example_dns (new_zone_index example_zones)) zone_changes.remove))
group_by_zone-is_ok_example = group_by_zone-is_ok example_dns zone_changes example_zones
