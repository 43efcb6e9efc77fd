-- ===== src/Provider/Splitting.antt =====
-- Lemmas on `groupByZone` of internal/provider/apply.go: what its groups hold, and when it
-- fails.
use external_dns_iij_dpf_web.Base.{
  AllEntries, Bool, Bool-cases, List, Option, [], all, ap, eq_list, eq_ℕ, false, inl, inr, insert,
  lookup, map, none, refl, some, some_inj, subst, sym, true, ◌&&◌, ◌==◌, ◌↔◌, ◌∙◌, ◌∷◌, ◌≡◌,
}
use external_dns_iij_dpf_web.Base.Int.{eq_ℤ}
use external_dns_iij_dpf_web.Dnsname.Name.{Dns, Name, eq_name}
use external_dns_iij_dpf_web.Errors.{Result, err, is_ok, is_ok->>=, is_ok-map, ok, ◌>>=◌}
use external_dns_iij_dpf_web.Provider.Apply.{
  Groups, Part, ZoneGroup, add_to, assign, assign_all, creating, deleting, group_by_zone, group_le,
  insert_group, no_groups, no_zone, part_of, sort_groups, to_group, updating,
}
use external_dns_iij_dpf_web.Provider.Grouping.{Covers, IsEntry, IsOf, assign_all-IsStep}
use external_dns_iij_dpf_web.Provider.Parts.{group_by_zone-steps}
use external_dns_iij_dpf_web.Provider.Types.{ChangeSet, Record, Zone, no_changes}
use external_dns_iij_dpf_web.Provider.Zoneindex.{ZoneIndex, new_zone_index, owner}
use external_dns_iij_dpf_web.Telemetry.Metrics.{eq_attributes}
use mathlib.Core.List.{Memᴰ}

pub mem-insert_group :
    (g : ZoneGroup) (hs : List ZoneGroup) (x : ZoneGroup)
    → Memᴰ x (g ∷ hs) ↔ Memᴰ x (insert_group g hs)
unfolding insert_group
mem-insert_group g [] x = (λ m. m, λ m. m)
mem-insert_group g (h ∷ hs) x = elim (Bool-cases (group_le g h)) [
  | inl y ↦ rw y (λ m. m, λ m. m)
  | inr n ↦
      let ih = mem-insert_group g hs x in
      rw n (
        elim [
          | Memᴰ.head e ↦ Memᴰ.tail (ih.0 (Memᴰ.head e))
          | Memᴰ.tail (Memᴰ.head e) ↦ Memᴰ.head e
          | Memᴰ.tail (Memᴰ.tail m) ↦ Memᴰ.tail (ih.0 (Memᴰ.tail m))
        ],
        elim [ Memᴰ.head e ↦ Memᴰ.tail (Memᴰ.head e) | Memᴰ.tail m ↦ swap h (ih.1 m) ],
      )
]
  where
    swap : (h : ZoneGroup) {hs : List ZoneGroup} → Memᴰ x (g ∷ hs) → Memᴰ x (g ∷ h ∷ hs)
    swap h (Memᴰ.head e) = Memᴰ.head e
    swap h (Memᴰ.tail m) = Memᴰ.tail (Memᴰ.tail m)

pub mem-sort_groups : (gs : List ZoneGroup) (x : ZoneGroup) → Memᴰ x gs ↔ Memᴰ x (sort_groups gs)
unfolding sort_groups
mem-sort_groups [] x = (λ m. m, λ m. m)
mem-sort_groups (g ∷ gs) x =
    let ih = mem-sort_groups gs x in
    let here = mem-insert_group g (sort_groups gs) x in
    (λ m. here.0 (onward m ih.0), λ m. back (here.1 m) ih.1)
  where
    onward : Memᴰ x (g ∷ gs) → (Memᴰ x gs → Memᴰ x (sort_groups gs)) → Memᴰ x (g ∷ sort_groups gs)
    onward (Memᴰ.head e) f = Memᴰ.head e
    onward (Memᴰ.tail m) f = Memᴰ.tail (f m)

    back : Memᴰ x (g ∷ sort_groups gs) → (Memᴰ x (sort_groups gs) → Memᴰ x gs) → Memᴰ x (g ∷ gs)
    back (Memᴰ.head e) f = Memᴰ.head e
    back (Memᴰ.tail m) f = Memᴰ.tail (f m)

module _ (d : Dns) (cs : ChangeSet) (zones : List Zone) where
  -- A group holds records of the change set that its zone owns, and no others.
  abbrev pub IsOwnGroup : ZoneGroup → Type 0
  IsOwnGroup g =
      (p : Part) (r : Record)
      → Memᴰ r (part_of p g.changes)
      → IsOf d (new_zone_index zones) cs g.zone.name p r

  to_group-zone :
      (owners : List (Name × Zone)) (n : Name) (c : ChangeSet) (z : Zone)
      → lookup n owners ≡ some z
      → (to_group owners (n, c)).zone.name ≡ z.name
  to_group-zone owners n c z l = rw (l, to_group) refl

  groups-IsOwnGroup :
      (owners : List (Name × Zone)) (m : List (Name × ChangeSet)) (g : ZoneGroup)
      → AllEntries (IsEntry d (new_zone_index zones) cs owners) m
      → Memᴰ g (map (to_group owners) m)
      → IsOwnGroup g
  groups-IsOwnGroup owners [] g h k = elim k [ ]
  groups-IsOwnGroup owners ((n, c) ∷ m) g h (Memᴰ.tail k) = groups-IsOwnGroup owners m g h.1 k
  groups-IsOwnGroup owners ((n, c) ∷ m) g h (Memᴰ.head e) =
      let (z, l, same) = h.0.0 in
      subst IsOwnGroup (sym e) (λ p r k.
        subst (λ (t : Name). IsOf d (new_zone_index zones) cs t p r)
          (sym (to_group-zone owners n c z l ∙ same)) (h.0.1 p r k))

  groups_complete :
      (owners : List (Name × Zone)) (m : List (Name × ChangeSet)) (n : Name) (c : ChangeSet)
      → lookup n m ≡ some c
      → (g : ZoneGroup) × Memᴰ g (map (to_group owners) m) × (g.changes ≡ c)
  groups_complete owners [] n c e = cc e
  groups_complete owners ((j, v) ∷ m) n c e = elim (Bool-cases (j == n)) [
    | inl y ↦ (to_group owners (j, v), Memᴰ.head refl, some_inj (rw y at e))
    | inr x ↦ let (g, k, w) = groups_complete owners m n c (rw x at e) in (g, Memᴰ.tail k, w)
  ]

  covered :
      (P : Part → Record → Type 0) (p : Part) (r : Record)
      → Memᴰ r (part_of p cs)
      → ((a : Record) → Memᴰ a cs.create → P creating a)
      → ((a : Record) → Memᴰ a cs.update_to → P updating a)
      → ((a : Record) → Memᴰ a cs.remove → P deleting a)
      → P p r
  covered P creating r m a b c = a r m
  covered P updating r m a b c = b r m
  covered P deleting r m a b c = c r m

  -- Grouping by zone, if it succeeds, splits a change set without loss: each part of a group holds
  -- records of that part of the change set whose names belong to the group's zone, and every
  -- record of the change set is in that part of some group.
  pub group_by_zone-splits :
      (gs : List ZoneGroup)
      → group_by_zone d cs zones ≡ ok gs
      → ((g : ZoneGroup) → Memᴰ g gs → IsOwnGroup g)
        × ((p : Part) (r : Record)
            → Memᴰ r (part_of p cs)
            → (g : ZoneGroup) × Memᴰ g gs × Memᴰ r (part_of p g.changes))
  group_by_zone-splits gs h =
      let idx = new_zone_index zones in
      let (g₁, g₂, g₃, e₁, e₂, e₃, same) = group_by_zone-steps d cs zones gs h in
      let s₁ = assign_all-IsStep d idx cs creating cs.create no_groups g₁ (λ r m. m) e₁ in
      let s₂ = assign_all-IsStep d idx cs updating cs.update_to g₁ g₂ (λ r m. m) e₂ in
      let s₃ = assign_all-IsStep d idx cs deleting cs.remove g₂ g₃ (λ r m. m) e₃ in
      (
        λ g m. groups-IsOwnGroup g₃.owners g₃.grouped g (s₃.0 (s₂.0 (s₁.0 tt))) (
            (mem-sort_groups (map (to_group g₃.owners) g₃.grouped) g).1
              (subst (λ (l : List ZoneGroup). Memᴰ g l) (sym same) m)),
        λ p r m.
            let (n, c, l, k) =
              covered (Covers d idx cs g₃) p r m
                (λ a w. s₃.2 creating a (s₂.2 creating a (s₁.1 a w)))
                (λ a w. s₃.2 updating a (s₂.1 a w)) s₃.1 in
            let (g, w, x) = groups_complete g₃.owners g₃.grouped n c l in
            (
              g,
              subst (λ (l : List ZoneGroup). Memᴰ g l) same
                  ((mem-sort_groups (map (to_group g₃.owners) g₃.grouped) g).0 w),
              subst (λ (b : ChangeSet). Memᴰ r (part_of p b)) (sym x) k,
            ),
      )

module _ (d : Dns) (idx : ZoneIndex) where
  abbrev pub has_owner : Record → Bool
  has_owner r = elim (owner d idx r.name) [ none ↦ false | some z ↦ true ]

  assign-is_ok :
      (part : Part) (r : Record) (g : Groups) → is_ok (assign d idx part r g) ≡ has_owner r
  unfolding assign
  assign-is_ok part r g = go (owner d idx r.name)
    where
      stored : (z : Zone) → Option ChangeSet → Result Groups
      stored z none = ok (record {
        grouped = insert z.name (add_to part r no_changes) g.grouped;
        owners = insert z.name z g.owners;
      })
      stored z (some c) = ok (record g { grouped = insert z.name (add_to part r c) g.grouped })

      found : (z : Zone) (o : Option ChangeSet) → is_ok (stored z o) ≡ true
      found z none = refl
      found z (some c) = refl

      go :
          (o : Option Zone)
          → is_ok (elim o [ none ↦ err no_zone | some z ↦ stored z (lookup z.name g.grouped) ])
            ≡ elim o [ none ↦ false | some z ↦ true ]
      go none = refl
      go (some z) = found z (lookup z.name g.grouped)

  assign_all-is_ok :
      (part : Part) (rs : List Record) (g : Groups)
      → is_ok (assign_all d idx part rs g) ≡ all has_owner rs
  unfolding assign_all
  assign_all-is_ok part [] g = refl
  assign_all-is_ok part (r ∷ rs) g =
      is_ok->>= (assign d idx part r g) (λ x. assign_all d idx part rs x) (all has_owner rs)
        (λ x e. assign_all-is_ok part rs x)
      ∙ ap (λ (b : Bool). b && all has_owner rs) (assign-is_ok part r g)

-- Grouping by zone succeeds exactly if every name of the change set belongs to some zone.
pub group_by_zone-is_ok :
    (d : Dns) (cs : ChangeSet) (zones : List Zone)
    → is_ok (group_by_zone d cs zones) ≡ (
        all (has_owner d (new_zone_index zones)) cs.create
        && (all (has_owner d (new_zone_index zones)) cs.update_to
            && all (has_owner d (new_zone_index zones)) cs.remove))
unfolding group_by_zone
group_by_zone-is_ok d cs zones =
    let idx = new_zone_index zones in
    let finish : Groups → Result (List ZoneGroup) =
      λ g. ok (sort_groups (map (to_group g.owners) g.grouped)) in
    is_ok->>= (assign_all d idx creating cs.create no_groups)
      (λ g. assign_all d idx updating cs.update_to g >>= λ g'.
        assign_all d idx deleting cs.remove g' >>= finish)
      (all (has_owner d idx) cs.update_to && all (has_owner d idx) cs.remove)
      (λ g e.
        is_ok->>= (assign_all d idx updating cs.update_to g)
          (λ g'. assign_all d idx deleting cs.remove g' >>= finish)
          (all (has_owner d idx) cs.remove)
          (λ g' k.
            is_ok-map (assign_all d idx deleting cs.remove g')
              (λ x. sort_groups (map (to_group x.owners) x.grouped))
            ∙ assign_all-is_ok d idx deleting cs.remove g')
        ∙ ap (λ (b : Bool). b && all (has_owner d idx) cs.remove)
            (assign_all-is_ok d idx updating cs.update_to g))
    ∙ ap
        (λ (b : Bool). b && (all (has_owner d idx) cs.update_to && all (has_owner d idx) cs.remove))
        (assign_all-is_ok d idx creating cs.create no_groups)
