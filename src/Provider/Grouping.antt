-- ===== src/Provider/Grouping.antt =====
-- Lemmas on the loop of `groupByZone` of internal/provider/apply.go: what its maps hold at every
-- step.
use external_dns_iij_dpf_web.Base.{
  AllEntries, AllEntries-imp, AllEntries-insert, Bool-cases, List, Option, [], ap, eq_list, eq_ℕ,
  inl, inr, insert, lookup, lookup-AllEntries, lookup-insert, lookup-insert_self, none, refl, some,
  some_inj, subst, sym, ◌==◌, ◌∙◌, ◌∷◌, ◌≡◌,
}
use external_dns_iij_dpf_web.Base.Int.{eq_ℤ}
use external_dns_iij_dpf_web.Dnsname.Name.{Dns, Name, eq_name, name_eq_iff}
use external_dns_iij_dpf_web.Errors.{>>=-eq-ok, Result, err, ok, ok-injective}
use external_dns_iij_dpf_web.Provider.Apply.{
  Groups, Part, add_to, assign, assign_all, creating, deleting, no_zone, part_of, updating,
}
use external_dns_iij_dpf_web.Provider.Parts.{mem-add_to, mem-add_to_new, mem-add_to_old}
use external_dns_iij_dpf_web.Provider.Types.{ChangeSet, Record, Zone, no_changes}
use external_dns_iij_dpf_web.Provider.Zoneindex.{ZoneIndex, owner}
use external_dns_iij_dpf_web.Telemetry.Metrics.{eq_attributes}
use mathlib.Core.List.{Memᴰ}

module _ (d : Dns) (idx : ZoneIndex) (cs : ChangeSet) where
  -- The record is one of the change set, and its name belongs to the zone `n`.
  abbrev pub IsOf : Name → Part → Record → Type 0
  IsOf n p r = Memᴰ r (part_of p cs) × ((z : Zone) × (owner d idx r.name ≡ some z) × (z.name ≡ n))

  abbrev pub IsEntry : List (Name × Zone) → Name → ChangeSet → Type 0
  IsEntry owners n c =
      ((z : Zone) × (lookup n owners ≡ some z) × (z.name ≡ n))
      × ((p : Part) (r : Record) → Memᴰ r (part_of p c) → IsOf n p r)

  IsEntry-insert :
      (owners : List (Name × Zone)) (z : Zone) (n : Name) (c : ChangeSet)
      → IsEntry owners n c
      → IsEntry (insert z.name z owners) n c
  IsEntry-insert owners z n c h = elim (Bool-cases (z.name == n)) [
    | inl y ↦ ((z, lookup-insert z.name n z owners ∙ rw y refl, (name_eq_iff z.name n).0 y), h.1)
    | inr e ↦ let (w, a, b) = h.0 in ((w, lookup-insert z.name n z owners ∙ rw e a, b), h.1)
  ]

  abbrev pub IsGrouped : Groups → Type 0
  IsGrouped g = AllEntries (IsEntry g.owners) g.grouped

  abbrev pub Covers : Groups → Part → Record → Type 0
  Covers g p r = (n : Name) × (c : ChangeSet) × (lookup n g.grouped ≡ some c) × Memᴰ r (part_of p c)

  -- What one more record makes of the groups.
  abbrev pub IsStep : Groups → Groups → Part → Record → Type 0
  IsStep g g' part r =
      (IsGrouped g → IsGrouped g')
      × Covers g' part r
      × ((p : Part) (a : Record) → Covers g p a → Covers g' p a)

  IsEntry-add_to :
      (part : Part) (r : Record) (owners : List (Name × Zone)) (z : Zone) (c : ChangeSet)
      → Memᴰ r (part_of part cs)
      → owner d idx r.name ≡ some z
      → ((y : Zone) × (lookup z.name owners ≡ some y) × (y.name ≡ z.name))
      → ((p : Part) (a : Record) → Memᴰ a (part_of p c) → IsOf z.name p a)
      → IsEntry owners z.name (add_to part r c)
  IsEntry-add_to part r owners z c m e found old = (
    found,
    λ p a k. elim (mem-add_to p part r a c k) [
      | inl x ↦ old p a x
      | inr (same, x) ↦
          subst (λ (q : Part). IsOf z.name q a) (sym same)
            (subst (λ (b : Record). IsOf z.name part b) (sym x) (m, (z, e, refl)))
    ],
  )

  Covers-insert :
      (g : Groups) (k : Name) (v : ChangeSet) (owners : List (Name × Zone))
      → ((c : ChangeSet)
          → lookup k g.grouped ≡ some c
          → (p : Part) (a : Record) → Memᴰ a (part_of p c)
          → Memᴰ a (part_of p v))
      → (p : Part) (a : Record) → Covers g p a
      → Covers (record { grouped = insert k v g.grouped; owners = owners }) p a
  Covers-insert g k v owners f p a (n, c, e, m) = elim (Bool-cases (k == n)) [
    | inr x ↦ (n, c, lookup-insert k n v g.grouped ∙ rw x e, m)
    | inl y ↦
        let same : k ≡ n = (name_eq_iff k n).0 y in
        (
          n,
          v,
          lookup-insert k n v g.grouped ∙ rw y refl,
          f c (ap (λ (t : Name). lookup t g.grouped) same ∙ e) p a m,
        )
  ]

  no_records : (p : Part) (a : Record) → Memᴰ a (part_of p no_changes) → ⊥
  no_records creating a m = elim m [ ]
  no_records updating a m = elim m [ ]
  no_records deleting a m = elim m [ ]

  assign-IsStep :
      (part : Part) (r : Record) (g g' : Groups)
      → Memᴰ r (part_of part cs)
      → assign d idx part r g ≡ ok g'
      → IsStep g g' part r
  unfolding assign
  assign-IsStep part r g g' m h = on_owner (owner d idx r.name) refl h
    where
      stored : (z : Zone) → Option ChangeSet → Result Groups
      stored z none = ok (record {
        grouped = insert z.name (add_to part r no_changes) g.grouped;
        owners = insert z.name z g.owners;
      })
      stored z (some c) = ok (record g { grouped = insert z.name (add_to part r c) g.grouped })

      on_entry :
          (z : Zone) (o : Option ChangeSet)
          → owner d idx r.name ≡ some z
          → lookup z.name g.grouped ≡ o
          → stored z o ≡ ok g'
          → IsStep g g' part r
      on_entry z none e k x =
          subst (λ (q : Groups). IsStep g q part r) (ok-injective x)
            (
              λ old.
                  AllEntries-insert (IsEntry (insert z.name z g.owners)) z.name
                    (add_to part r no_changes) g.grouped
                    (AllEntries-imp (IsEntry g.owners) (IsEntry (insert z.name z g.owners))
                      g.grouped (λ n c. IsEntry-insert g.owners z n c) old)
                    (IsEntry-add_to part r (insert z.name z g.owners) z no_changes m e
                      (z, lookup-insert_self z.name z g.owners, refl)
                      (λ p a n. absurd (no_records p a n))),
              (
                z.name,
                add_to part r no_changes,
                lookup-insert_self z.name (add_to part r no_changes) g.grouped,
                mem-add_to_new part r no_changes,
              ),
              Covers-insert g z.name (add_to part r no_changes) (insert z.name z g.owners)
                  (λ c y. cc (k, y)),
            )
      on_entry z (some c) e k x =
          subst (λ (q : Groups). IsStep g q part r) (ok-injective x)
            (
              λ old.
                  let entry : IsEntry g.owners z.name c =
                    lookup-AllEntries (IsEntry g.owners) g.grouped old k in
                  AllEntries-insert (IsEntry g.owners) z.name (add_to part r c) g.grouped old
                    (IsEntry-add_to part r g.owners z c m e entry.0 entry.1),
              (
                z.name,
                add_to part r c,
                lookup-insert_self z.name (add_to part r c) g.grouped,
                mem-add_to_new part r c,
              ),
              Covers-insert g z.name (add_to part r c) g.owners (λ c' y p a n.
                  mem-add_to_old p part r a c
                    (subst (λ (b : ChangeSet). Memᴰ a (part_of p b)) (some_inj (sym y ∙ k)) n)),
            )

      on_owner :
          (o : Option Zone)
          → owner d idx r.name ≡ o
          → elim o [ none ↦ err no_zone | some z ↦ stored z (lookup z.name g.grouped) ] ≡ ok g'
          → IsStep g g' part r
      on_owner none e x = cc x
      on_owner (some z) e x = on_entry z (lookup z.name g.grouped) e refl x

  pub assign_all-IsStep :
      (part : Part) (rs : List Record) (g g' : Groups)
      → ((r : Record) → Memᴰ r rs → Memᴰ r (part_of part cs))
      → assign_all d idx part rs g ≡ ok g'
      → (IsGrouped g → IsGrouped g')
        × ((r : Record) → Memᴰ r rs → Covers g' part r)
        × ((p : Part) (a : Record) → Covers g p a → Covers g' p a)
  unfolding assign_all
  assign_all-IsStep part [] g g' sub h =
      subst
        (λ (q : Groups).
          (IsGrouped g → IsGrouped q)
          × ((r : Record) → Memᴰ r [] → Covers q part r)
          × ((p : Part) (a : Record) → Covers g p a → Covers q p a))
        (ok-injective h) (λ x. x, λ r m. elim m [ ], λ p a x. x)
  assign_all-IsStep part (r ∷ rs) g g' sub h =
      let (g₁, e, f) = >>=-eq-ok (assign d idx part r g) (λ x. assign_all d idx part rs x) h in
      let step = assign-IsStep part r g g₁ (sub r (Memᴰ.head refl)) e in
      let rest = assign_all-IsStep part rs g₁ g' (λ a m. sub a (Memᴰ.tail m)) f in
      (
        λ x. rest.0 (step.0 x),
        λ a. elim [
          | Memᴰ.head p ↦ rest.2 part a (subst (λ (b : Record). Covers g₁ part b) (sym p) step.1)
          | Memᴰ.tail m ↦ rest.1 a m
        ],
        λ p a x. rest.2 p a (step.2 p a x),
      )
