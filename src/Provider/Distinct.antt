-- ===== src/Provider/Distinct.antt =====
-- Lemmas on `groupByZone` of internal/provider/apply.go: each zone has one group, and is a zone that
-- was listed.
use external_dns_iij_dpf_web.Base.{
  All, All-mem, All-of_mem, AllEntries, AllEntries-imp, AllEntries-insert, Bool-cases, List, Option,
  [], ap, arith, eq_list, eq_ℕ, false, inl, inr, insert, lookup, lookup-AllEntries, lookup-insert,
  map, none, refl, some, subst, sym, ◌==◌, ◌∙◌, ◌∷◌, ◌≡◌, ◌≢◌,
}
use external_dns_iij_dpf_web.Base.Int.{eq_ℤ}
use external_dns_iij_dpf_web.Dnsname.Name.{Dns, Name, eq_name, name_eq_iff}
use external_dns_iij_dpf_web.Errors.{>>=-eq-ok, Result, err, ok, ok-injective}
use external_dns_iij_dpf_web.Provider.Apply.{
  Groups, Part, ZoneGroup, add_to, assign, assign_all, creating, deleting, group_by_zone, group_le,
  insert_group, no_groups, no_zone, sort_groups, to_group, updating,
}
use external_dns_iij_dpf_web.Provider.Grouping.{IsEntry, assign_all-IsStep}
use external_dns_iij_dpf_web.Provider.Ownership.{IsOwner, owner-IsOwner}
use external_dns_iij_dpf_web.Provider.Parts.{group_by_zone-steps}
use external_dns_iij_dpf_web.Provider.Splitting.{mem-insert_group, mem-sort_groups}
use external_dns_iij_dpf_web.Provider.Types.{ChangeSet, Record, Zone, no_changes}
use external_dns_iij_dpf_web.Provider.Zoneindex.{ZoneIndex, new_zone_index, owner}
use external_dns_iij_dpf_web.Telemetry.Metrics.{eq_attributes}
use mathlib.Core.List.{Memᴰ}

-- No key twice.
abbrev DistinctKeys : List (Name × ChangeSet) → Type 0
DistinctKeys [] = Unit
DistinctKeys ((k, c) ∷ m) = (lookup k m ≡ none) × DistinctKeys m

insert-DistinctKeys :
    (k : Name) (c : ChangeSet) (m : List (Name × ChangeSet))
    → DistinctKeys m
    → DistinctKeys (insert k c m)
unfolding insert
insert-DistinctKeys k c [] h = (refl, tt)
insert-DistinctKeys k c ((j, w) ∷ m) h = elim (Bool-cases (j == k)) [
  | inl y ↦ rw y h
  | inr n ↦
      let other : (k == j) ≡ false = ground (arith, name_eq_iff j k, name_eq_iff k j) in
      rw n (lookup-insert k j c m ∙ rw other h.0, insert-DistinctKeys k c m h.1)
]

module _ (d : Dns) (idx : ZoneIndex) (zones : List Zone)
    (listed : (name : Name) (z : Zone) → owner d idx name ≡ some z → Memᴰ z zones) where
  -- The keys are distinct, and each zone is one of those that were listed.
  abbrev IsProper : Groups → Type 0
  IsProper g = DistinctKeys g.grouped × AllEntries (λ k z. Memᴰ z zones) g.owners

  assign-IsProper :
      (p : Part) (r : Record) (g g' : Groups)
      → assign d idx p r g ≡ ok g'
      → IsProper g
      → IsProper g'
  unfolding assign
  assign-IsProper p r g g' h proper = on_owner (owner d idx r.name) refl h
    where
      stored : (z : Zone) → Option ChangeSet → Result Groups
      stored z none = ok (record {
        grouped = insert z.name (add_to p r no_changes) g.grouped;
        owners = insert z.name z g.owners;
      })
      stored z (some c) = ok (record g { grouped = insert z.name (add_to p r c) g.grouped })

      on_entry : (z : Zone) (o : Option ChangeSet) → Memᴰ z zones → stored z o ≡ ok g' → IsProper g'
      on_entry z none m x = subst IsProper (ok-injective x) (
        insert-DistinctKeys z.name (add_to p r no_changes) g.grouped proper.0,
        AllEntries-insert (λ k z. Memᴰ z zones) z.name z g.owners proper.1 m,
      )
      on_entry z (some c) m x =
          subst IsProper (ok-injective x)
            (insert-DistinctKeys z.name (add_to p r c) g.grouped proper.0, proper.1)

      on_owner :
          (o : Option Zone)
          → owner d idx r.name ≡ o
          → elim o [ none ↦ err no_zone | some z ↦ stored z (lookup z.name g.grouped) ] ≡ ok g'
          → IsProper g'
      on_owner none e x = cc x
      on_owner (some z) e x = on_entry z (lookup z.name g.grouped) (listed r.name z e) x

  assign_all-IsProper :
      (p : Part) (rs : List Record) (g g' : Groups)
      → assign_all d idx p rs g ≡ ok g'
      → IsProper g
      → IsProper g'
  unfolding assign_all
  assign_all-IsProper p [] g g' h proper = subst IsProper (ok-injective h) proper
  assign_all-IsProper p (r ∷ rs) g g' h proper =
      let (x, e, k) = >>=-eq-ok (assign d idx p r g) (λ x. assign_all d idx p rs x) h in
      assign_all-IsProper p rs x g' k (assign-IsProper p r g x e proper)

-- No zone has two groups.
abbrev pub DistinctZones : List ZoneGroup → Type 0
DistinctZones [] = Unit
DistinctZones (g ∷ gs) = All (λ h. h.zone.name ≢ g.zone.name) gs × DistinctZones gs

insert_group-DistinctZones :
    (g : ZoneGroup) (gs : List ZoneGroup)
    → All (λ h. h.zone.name ≢ g.zone.name) gs
    → DistinctZones gs
    → DistinctZones (insert_group g gs)
unfolding insert_group
insert_group-DistinctZones g [] new old = (tt, tt)
insert_group-DistinctZones g (h ∷ hs) new old = elim (Bool-cases (group_le g h)) [
  | inl y ↦ rw y (new, old)
  | inr n ↦ rw n (
    All-of_mem (λ x. x.zone.name ≢ h.zone.name) (insert_group g hs)
        (λ x m. apart x ((mem-insert_group g hs x).1 m)),
    insert_group-DistinctZones g hs new.1 old.1,
  )
]
  where
    apart : (x : ZoneGroup) → Memᴰ x (g ∷ hs) → x.zone.name ≢ h.zone.name
    apart x (Memᴰ.head e) = λ same. new.0 (sym same ∙ ap (λ (y : ZoneGroup). y.zone.name) e)
    apart x (Memᴰ.tail m) = All-mem (λ x. x.zone.name ≢ h.zone.name) old.0 m

sort_groups-DistinctZones :
    (gs : List ZoneGroup) → DistinctZones gs → DistinctZones (sort_groups gs)
unfolding sort_groups
sort_groups-DistinctZones [] h = tt
sort_groups-DistinctZones (g ∷ gs) h =
    insert_group-DistinctZones g (sort_groups gs)
      (All-of_mem (λ x. x.zone.name ≢ g.zone.name) (sort_groups gs)
        (λ x m. All-mem (λ x. x.zone.name ≢ g.zone.name) h.0 ((mem-sort_groups gs x).1 m)))
      (sort_groups-DistinctZones gs h.1)

-- What `owners` has for a key: a zone of that name.
abbrev HasOwner : List (Name × Zone) → Name → ChangeSet → Type 0
HasOwner owners k c = (z : Zone) × (lookup k owners ≡ some z) × (z.name ≡ k)

to_group-name :
    (owners : List (Name × Zone)) (k : Name) (c : ChangeSet)
    → HasOwner owners k c
    → (to_group owners (k, c)).zone.name ≡ k
to_group-name owners k c (z, l, same) = rw (l, to_group) same

others_named :
    (owners : List (Name × Zone)) (k : Name) (m : List (Name × ChangeSet))
    → AllEntries (HasOwner owners) m
    → lookup k m ≡ none
    → All (λ h. h.zone.name ≢ k) (map (to_group owners) m)
others_named owners k [] h e = tt
others_named owners k ((j, c) ∷ m) h e = elim (Bool-cases (j == k)) [
  | inl y ↦ cc (rw y at e)
  | inr n ↦ (
    λ same.
        let equal : j ≡ k = sym (to_group-name owners j c h.0) ∙ same in
        cc (n, (name_eq_iff j k).1 equal),
    others_named owners k m h.1 (rw n at e),
  )
]

map-DistinctZones :
    (owners : List (Name × Zone)) (m : List (Name × ChangeSet))
    → AllEntries (HasOwner owners) m
    → DistinctKeys m
    → DistinctZones (map (to_group owners) m)
map-DistinctZones owners [] h k = tt
map-DistinctZones owners ((j, c) ∷ m) h k = (
  subst (λ (n : Name). All (λ h. h.zone.name ≢ n) (map (to_group owners) m))
      (sym (to_group-name owners j c h.0)) (others_named owners j m h.1 k.0),
  map-DistinctZones owners m h.1 k.1,
)

map-listed :
    (zones : List Zone) (owners : List (Name × Zone)) (m : List (Name × ChangeSet))
    → AllEntries (λ k z. Memᴰ z zones) owners
    → AllEntries (HasOwner owners) m
    → All (λ g. Memᴰ g.zone zones) (map (to_group owners) m)
map-listed zones owners [] h k = tt
map-listed zones owners ((j, c) ∷ m) h k =
    let (z, l, same) = k.0 in
    (
      rw (l, to_group) (lookup-AllEntries (λ k z. Memᴰ z zones) owners h l),
      map-listed zones owners m h k.1,
    )

owner_listed :
    (d : Dns) (zones : List Zone) (name : Name) (z : Zone)
    → owner d (new_zone_index zones) name ≡ some z
    → Memᴰ z zones
owner_listed d zones name z e =
    (subst (λ (o : Option Zone). IsOwner d zones name o) e (owner-IsOwner d zones name)).0

-- The groups are of distinct zones, each of them one that was listed.
pub group_by_zone-DistinctZones :
    (d : Dns) (cs : ChangeSet) (zones : List Zone) (gs : List ZoneGroup)
    → group_by_zone d cs zones ≡ ok gs
    → DistinctZones gs × All (λ g. Memᴰ g.zone zones) gs
group_by_zone-DistinctZones d cs zones gs h =
    let idx = new_zone_index zones in
    let (g₁, g₂, g₃, e₁, e₂, e₃, same) = group_by_zone-steps d cs zones gs h in
    let s₁ = assign_all-IsStep d idx cs creating cs.create no_groups g₁ (λ r m. m) e₁ in
    let s₂ = assign_all-IsStep d idx cs updating cs.update_to g₁ g₂ (λ r m. m) e₂ in
    let s₃ = assign_all-IsStep d idx cs deleting cs.remove g₂ g₃ (λ r m. m) e₃ in
    let owned : AllEntries (HasOwner g₃.owners) g₃.grouped =
      AllEntries-imp (IsEntry d idx cs g₃.owners) (HasOwner g₃.owners) g₃.grouped (λ k c x. x.0)
        (s₃.0 (s₂.0 (s₁.0 tt))) in
    let proper =
      assign_all-IsProper d idx zones (owner_listed d zones) deleting cs.remove g₂ g₃ e₃ (
        assign_all-IsProper d idx zones (owner_listed d zones) updating cs.update_to g₁ g₂ e₂ (
          assign_all-IsProper d idx zones (owner_listed d zones) creating cs.create no_groups g₁ e₁
            (tt, tt))) in
    let groups = map (to_group g₃.owners) g₃.grouped in
    (
      subst DistinctZones same (
          sort_groups-DistinctZones groups (map-DistinctZones g₃.owners g₃.grouped owned proper.0)),
      subst (λ (l : List ZoneGroup). All (λ g. Memᴰ g.zone zones) l) same
          (All-of_mem (λ g. Memᴰ g.zone zones) (sort_groups groups)
            (λ g m.
              All-mem (λ g. Memᴰ g.zone zones)
                (map-listed zones g₃.owners g₃.grouped proper.1 owned)
                ((mem-sort_groups groups g).1 m))),
    )
