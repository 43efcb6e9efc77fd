-- ===== src/Provider/Apply.antt =====
-- internal/provider/apply.go: `ApplyChanges`. What it logs and
-- measures is in Provider/Observed; spans are left out.
use external_dns_iij_dpf_web.Base.{
  Bool, List, [], eq_list, eq_ℕ, if◌then◌else◌, insert, keep, lookup, map, none, some, ◌++◌, ◌||◌,
  ◌∷◌,
}
use external_dns_iij_dpf_web.Base.Int.{eq_ℤ}
use external_dns_iij_dpf_web.Base.Text.{text_le}
use external_dns_iij_dpf_web.Calls.{Call, and_then, lift, pure, wrapping}
use external_dns_iij_dpf_web.Dnsname.Name.{Dns, Name, eq_name, no_name}
use external_dns_iij_dpf_web.Dnsname.Scope.{Scope, in_scope, is_empty_scope}
use external_dns_iij_dpf_web.Errors.{
  Error, Result, err, err_permanent, err_zone_not_found, ok, sentinel, wrap2, ◌>>=◌,
}
use external_dns_iij_dpf_web.Provider.Backend.{Backend}
use external_dns_iij_dpf_web.Provider.Txt.{TxtCodec}
use external_dns_iij_dpf_web.Provider.Types.{ChangeSet, Record, Zone, is_empty_changes, no_changes}
use external_dns_iij_dpf_web.Provider.Validate.{validate_format}
use external_dns_iij_dpf_web.Provider.Zoneindex.{ZoneIndex, new_zone_index, owner}
use external_dns_iij_dpf_web.Telemetry.Metrics.{eq_attributes}

unfoldable pub filter_to_scope : Dns → Scope → ChangeSet → ChangeSet
filter_to_scope d scope cs = record {
  create = keep (λ r. in_scope d scope r.name) cs.create;
  update_to = keep (λ r. in_scope d scope r.name) cs.update_to;
  remove = keep (λ r. in_scope d scope r.name) cs.remove;
}

pub record ZoneGroup : Type 0 where
  pub zone : Zone
  pub changes : ChangeSet

-- The field that `pick` names.
pub data Part : Type 0 where
  creating updating deleting : Part

abbrev pub add_to : Part → Record → ChangeSet → ChangeSet
add_to creating r c = record c { create = c.create ++ r ∷ [] }
add_to updating r c = record c { update_to = c.update_to ++ r ∷ [] }
add_to deleting r c = record c { remove = c.remove ++ r ∷ [] }

-- The field itself.
abbrev pub part_of : Part → ChangeSet → List Record
part_of creating c = c.create
part_of updating c = c.update_to
part_of deleting c = c.remove

-- `grouped` and `owners`.
pub record Groups : Type 0 where
  pub grouped : List (Name × ChangeSet)
  pub owners : List (Name × Zone)

abbrev pub no_groups : Groups
no_groups = record { grouped = []; owners = [] }

abbrev pub no_zone : Error
no_zone = wrap2 (sentinel err_permanent) (sentinel err_zone_not_found)

abbrev pub zero_zone : Zone
zero_zone = record { name = no_name; id = [] }

module _ (d : Dns) (idx : ZoneIndex) where
  unfoldable pub assign : Part → Record → Groups → Result Groups
  assign part r g = elim (owner d idx r.name) [
    | none ↦ err no_zone
    | some z ↦ elim (lookup z.name g.grouped) [
      | none ↦ ok (record {
        grouped = insert z.name (add_to part r no_changes) g.grouped;
        owners = insert z.name z g.owners;
      })
      | some c ↦ ok (record g { grouped = insert z.name (add_to part r c) g.grouped })
    ]
  ]

  unfoldable pub assign_all : Part → List Record → Groups → Result Groups
  assign_all part [] g = ok g
  assign_all part (r ∷ rs) g = assign part r g >>= λ g'. assign_all part rs g'

abbrev pub to_group : List (Name × Zone) → Name × ChangeSet → ZoneGroup
to_group owners (name, changes) = record {
  zone = elim (lookup name owners) [ none ↦ zero_zone | some z ↦ z ];
  changes = changes;
}

abbrev pub group_le : ZoneGroup → ZoneGroup → Bool
group_le a b = text_le a.zone.name.canonical b.zone.name.canonical

unfoldable pub insert_group : ZoneGroup → List ZoneGroup → List ZoneGroup
insert_group g [] = g ∷ []
insert_group g (h ∷ hs) =
    let rest = insert_group g hs in if group_le g h then g ∷ h ∷ hs else h ∷ rest

-- `slices.SortFunc`, whose result is settled where the names differ, as the keys of a map do.
unfoldable pub sort_groups : List ZoneGroup → List ZoneGroup
unfolding insert_group
sort_groups [] = []
sort_groups (g ∷ gs) = insert_group g (sort_groups gs)

unfoldable pub group_by_zone : Dns → ChangeSet → List Zone → Result (List ZoneGroup)
unfolding assign_all sort_groups
group_by_zone d cs zones =
    let idx = new_zone_index zones in
    assign_all d idx creating cs.create no_groups >>= λ g.
    assign_all d idx updating cs.update_to g >>= λ g'.
    assign_all d idx deleting cs.remove g' >>= λ g''.
    ok (sort_groups (map (to_group g''.owners) g''.grouped))

module _ {S : Type 0} (d : Dns) (t : TxtCodec) (scope : Scope) (b : Backend S) where
  -- The loop over the groups: the first failure ends it.
  unfoldable pub apply_groups : List ZoneGroup → Call S (Unit {0})
  apply_groups [] = pure tt
  apply_groups (g ∷ gs) = and_then (wrapping (b.apply g.zone g.changes)) λ u. apply_groups gs

  unfoldable pub apply_in_scope : ChangeSet → Call S (Unit {0})
  unfolding apply_groups
  apply_in_scope cs = and_then (lift (validate_format d t cs)) λ u.
      and_then b.list_zones
        λ zones. and_then (lift (group_by_zone d cs zones)) λ groups. apply_groups groups

  unfoldable pub apply_changes : ChangeSet → Call S (Unit {0})
  apply_changes cs =
      if is_empty_changes cs || is_empty_scope scope
      then pure tt
      else if is_empty_changes (filter_to_scope d scope cs)
      then pure tt
      else apply_in_scope (filter_to_scope d scope cs)
