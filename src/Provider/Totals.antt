-- ===== src/Provider/Totals.antt =====
-- Lemmas on `groupByZone` of internal/provider/apply.go: it loses and doubles no record.
use external_dns_iij_dpf_web.Base.{
  Bool, Bool-cases, List, Option, [], ap, arith, eq_list, eq_ℕ, false, if◌then◌else◌, inl, inr,
  insert, length, length-append, lookup, map, none, refl, some, suc, sym, true, ℕ, ◌+◌, ◌==◌, ◌∙◌,
  ◌∷◌, ◌≡◌,
}
use external_dns_iij_dpf_web.Base.Int.{eq_ℤ}
use external_dns_iij_dpf_web.Dnsname.Name.{Dns, Name, eq_name}
use external_dns_iij_dpf_web.Errors.{>>=-eq-ok, Result, err, ok, ok-injective}
use external_dns_iij_dpf_web.Provider.Apply.{
  Groups, Part, ZoneGroup, add_to, assign, assign_all, creating, deleting, group_by_zone, group_le,
  insert_group, no_groups, no_zone, part_of, sort_groups, to_group, updating,
}
use external_dns_iij_dpf_web.Provider.Parts.{group_by_zone-steps}
use external_dns_iij_dpf_web.Provider.Types.{ChangeSet, Record, Zone, no_changes}
use external_dns_iij_dpf_web.Provider.Zoneindex.{ZoneIndex, new_zone_index, owner}
use external_dns_iij_dpf_web.Telemetry.Metrics.{eq_attributes}

abbrev pub same_part : Part → Part → Bool
same_part creating creating = true
same_part updating updating = true
same_part deleting deleting = true
same_part _ _ = false

-- How many records of a part the groups have.
abbrev pub total : Part → List ZoneGroup → ℕ
total q [] = 0
total q (g ∷ gs) = length (part_of q g.changes) + total q gs

abbrev total_of : Part → List (Name × ChangeSet) → ℕ
total_of q [] = 0
total_of q ((k, c) ∷ m) = length (part_of q c) + total_of q m

abbrev size_of : Part → Option ChangeSet → ℕ
size_of q none = 0
size_of q (some c) = length (part_of q c)

total_of-insert :
    (q : Part) (k : Name) (c : ChangeSet) (m : List (Name × ChangeSet))
    → total_of q (insert k c m) + size_of q (lookup k m) ≡ total_of q m + length (part_of q c)
unfolding insert
total_of-insert q k c [] = omega arith
total_of-insert q k c ((j, e) ∷ m) = elim (Bool-cases (j == k)) [
  | inl y ↦ rw y (omega arith)
  | inr n ↦ rw n (omega (arith, total_of-insert q k c m))
]

added : Part → Part → ℕ → ℕ
added p q n = if same_part p q then n else 0

length-add_to :
    (p q : Part) (r : Record) (c : ChangeSet)
    → length (part_of q (add_to p r c)) ≡ length (part_of q c) + added p q 1
unfolding added
length-add_to creating creating r c = length-append c.create (r ∷ [])
length-add_to creating updating r c = omega arith
length-add_to creating deleting r c = omega arith
length-add_to updating creating r c = omega arith
length-add_to updating updating r c = length-append c.update_to (r ∷ [])
length-add_to updating deleting r c = omega arith
length-add_to deleting creating r c = omega arith
length-add_to deleting updating r c = omega arith
length-add_to deleting deleting r c = length-append c.remove (r ∷ [])

no_changes-size : (q : Part) → length (part_of q no_changes) ≡ 0
no_changes-size creating = refl
no_changes-size updating = refl
no_changes-size deleting = refl

module _ (d : Dns) (idx : ZoneIndex) where
  assign-total_of :
      (p q : Part) (r : Record) (g g' : Groups)
      → assign d idx p r g ≡ ok g'
      → total_of q g'.grouped ≡ total_of q g.grouped + added p q 1
  unfolding assign
  assign-total_of p q r g g' h = on_owner (owner d idx r.name) h
    where
      stored : (z : Zone) → Option ChangeSet → Result Groups
      stored z none = ok (record {
        grouped = insert z.name (add_to p r no_changes) g.grouped;
        owners = insert z.name z g.owners;
      })
      stored z (some c) = ok (record g { grouped = insert z.name (add_to p r c) g.grouped })

      grown :
          (c : ChangeSet) (k : Name)
          → size_of q (lookup k g.grouped) ≡ length (part_of q c)
          → g'.grouped ≡ insert k (add_to p r c) g.grouped
          → total_of q g'.grouped ≡ total_of q g.grouped + added p q 1
      grown c k size into =
          ap (λ (m : List (Name × ChangeSet)). total_of q m) into
          ∙ omega (arith, total_of-insert q k (add_to p r c) g.grouped, size, length-add_to p q r c)

      on_entry :
          (z : Zone) (o : Option ChangeSet)
          → lookup z.name g.grouped ≡ o
          → stored z o ≡ ok g'
          → total_of q g'.grouped ≡ total_of q g.grouped + added p q 1
      on_entry z none k x =
          grown no_changes z.name
            (ap (λ (o : Option ChangeSet). size_of q o) k ∙ sym (no_changes-size q))
            (ap (λ (x : Groups). x.grouped) (sym (ok-injective x)))
      on_entry z (some c) k x =
          grown c z.name (ap (λ (o : Option ChangeSet). size_of q o) k)
            (ap (λ (x : Groups). x.grouped) (sym (ok-injective x)))

      on_owner :
          (o : Option Zone)
          → elim o [ none ↦ err no_zone | some z ↦ stored z (lookup z.name g.grouped) ] ≡ ok g'
          → total_of q g'.grouped ≡ total_of q g.grouped + added p q 1
      on_owner none x = cc x
      on_owner (some z) x = on_entry z (lookup z.name g.grouped) refl x

  added-suc : (p q : Part) (n : ℕ) → added p q (suc n) ≡ added p q 1 + added p q n
  unfolding added
  added-suc p q n = ground arith

  added-zero : (p q : Part) → added p q 0 ≡ 0
  unfolding added
  added-zero p q = ground arith

  assign_all-total_of :
      (p q : Part) (rs : List Record) (g g' : Groups)
      → assign_all d idx p rs g ≡ ok g'
      → total_of q g'.grouped ≡ total_of q g.grouped + added p q (length rs)
  unfolding assign_all
  assign_all-total_of p q [] g g' h =
      omega (arith, ap (λ (x : Groups). total_of q x.grouped) (ok-injective h), added-zero p q)
  assign_all-total_of p q (r ∷ rs) g g' h =
      let (x, e, k) = >>=-eq-ok (assign d idx p r g) (λ x. assign_all d idx p rs x) h in
      omega (
        arith,
        assign-total_of p q r g x e,
        assign_all-total_of p q rs x g' k,
        added-suc p q (length rs),
      )

total-insert_group :
    (q : Part) (g : ZoneGroup) (gs : List ZoneGroup)
    → total q (insert_group g gs) ≡ length (part_of q g.changes) + total q gs
unfolding insert_group
total-insert_group q g [] = refl
total-insert_group q g (h ∷ hs) = elim (Bool-cases (group_le g h)) [
  | inl y ↦ rw y refl
  | inr n ↦ rw n (omega (arith, total-insert_group q g hs))
]

total-sort_groups : (q : Part) (gs : List ZoneGroup) → total q (sort_groups gs) ≡ total q gs
unfolding sort_groups
total-sort_groups q [] = refl
total-sort_groups q (g ∷ gs) =
    omega (arith, total-insert_group q g (sort_groups gs), total-sort_groups q gs)

total-to_group :
    (q : Part) (owners : List (Name × Zone)) (m : List (Name × ChangeSet))
    → total q (map (to_group owners) m) ≡ total_of q m
total-to_group q owners [] = refl
total-to_group q owners ((k, c) ∷ m) = omega (arith, total-to_group q owners m)

added_parts :
    (q : Part) (cs : ChangeSet)
    → added creating q (length cs.create)
        + (added updating q (length cs.update_to) + added deleting q (length cs.remove))
      ≡ length (part_of q cs)
unfolding added
added_parts creating cs = omega arith
added_parts updating cs = omega arith
added_parts deleting cs = omega arith

-- The groups have as many records of each part as the change set has.
pub group_by_zone-total :
    (d : Dns) (q : Part) (cs : ChangeSet) (zones : List Zone) (gs : List ZoneGroup)
    → group_by_zone d cs zones ≡ ok gs
    → total q gs ≡ length (part_of q cs)
group_by_zone-total d q cs zones gs h =
    let idx = new_zone_index zones in
    let (g₁, g₂, g₃, e₁, e₂, e₃, same) = group_by_zone-steps d cs zones gs h in
    ap (λ (l : List ZoneGroup). total q l) (sym same)
    ∙ total-sort_groups q (map (to_group g₃.owners) g₃.grouped)
    ∙ total-to_group q g₃.owners g₃.grouped
    ∙ omega (
      arith,
      assign_all-total_of d idx creating q cs.create no_groups g₁ e₁,
      assign_all-total_of d idx updating q cs.update_to g₁ g₂ e₂,
      assign_all-total_of d idx deleting q cs.remove g₂ g₃ e₃,
      added_parts q cs,
    )
