-- ===== src/Provider/Asked.antt =====
-- Lemmas on `ApplyChanges` of internal/provider/apply.go over the fake backend of
-- internal/provider/providertest/fake.go: what a backend is asked for.
use external_dns_iij_dpf_web.Base.{
  Bool-cases, List, Option-cases, [], ap, arith, inl, inr, length, length-append, map, mem-map,
  mem_of_map, refl, subst, sym, true, ◌++◌, ◌+◌, ◌||◌, ◌∙◌, ◌∷◌, ◌≡◌,
}
use external_dns_iij_dpf_web.Calls.{and_then-eq-ok, lift, pure-eq-ok, wrapping, wrapping-eq-ok}
use external_dns_iij_dpf_web.Dnsname.Name.{Dns, Name}
use external_dns_iij_dpf_web.Dnsname.Scope.{Scope, is_empty_scope}
use external_dns_iij_dpf_web.Errors.{Result, ok}
use external_dns_iij_dpf_web.Provider.Apply.{
  Part, ZoneGroup, apply_changes, apply_groups, apply_in_scope, filter_to_scope, group_by_zone,
  part_of,
}
use external_dns_iij_dpf_web.Provider.Fake.{
  AppliedChange, Fake, fake_apply, fake_backend, fake_list_zones,
}
use external_dns_iij_dpf_web.Provider.Grouping.{IsOf}
use external_dns_iij_dpf_web.Provider.Splitting.{group_by_zone-splits}
use external_dns_iij_dpf_web.Provider.Txt.{TxtCodec}
use external_dns_iij_dpf_web.Provider.Types.{ChangeSet, Record, Zone, is_empty_changes}
use external_dns_iij_dpf_web.Provider.Validate.{validate_format}
use external_dns_iij_dpf_web.Provider.Writing.{filter_to_scope_of_nothing, no_record}
use external_dns_iij_dpf_web.Provider.Zoneindex.{new_zone_index}
use mathlib.Core.List.{Memᴰ, append-nil, append_assoc}

-- What the fake records of a group.
abbrev pub asked : ZoneGroup → AppliedChange
asked g = record { zone = g.zone; changes = g.changes }

-- The fake has been asked for some more applies, in this order, and for no records.
abbrev pub IsGrown : List AppliedChange → Fake → Fake → Type 0
IsGrown new b b' =
    (b'.applied ≡ b.applied ++ new)
    × (b'.apply_calls ≡ b.apply_calls + length new)
    × (b'.list_records_calls ≡ b.list_records_calls)

IsGrown-then :
    (old new : List AppliedChange) (x y z : Fake)
    → IsGrown old x y
    → IsGrown new y z
    → IsGrown (old ++ new) x z
IsGrown-then old new x y z h k = (
  k.0 ∙ ap (λ (l : List AppliedChange). l ++ new) h.0 ∙ append_assoc x.applied old new,
  omega (arith, h.1, k.1, length-append old new),
  k.2 ∙ h.2,
)

fake_list_zones-IsGrown :
    (b c : Fake) {zones : List Zone}
    → fake_list_zones b ≡ (ok zones, c)
    → (zones ≡ b.zones) × IsGrown [] b c
unfolding fake_list_zones
fake_list_zones-IsGrown b c h = elim (Option-cases b.list_zones_err) [
  | inl n ↦
      let (zones, now) = pure-eq-ok (rw n at h) in
      (
        sym zones,
        subst (λ (x : Fake). IsGrown [] b x) now (sym (append-nil b.applied), omega arith, refl),
      )
  | inr (e, y) ↦ cc (ap (λ (p : Result (List Zone) × Fake). p.0) (rw y at h))
]

fake_apply-IsGrown :
    (zone : Zone) (cs : ChangeSet) (b c : Fake)
    → fake_apply zone cs b ≡ (ok tt, c)
    → IsGrown (record { zone = zone; changes = cs } ∷ []) b c
unfolding fake_apply
fake_apply-IsGrown zone cs b c h = elim (Option-cases b.apply_err) [
  | inl n ↦
      subst (λ (x : Fake). IsGrown (record { zone = zone; changes = cs } ∷ []) b x)
        (pure-eq-ok (rw n at h)).1 (refl, omega arith, refl)
  | inr (e, y) ↦ cc (ap (λ (p : Result (Unit {0}) × Fake). p.0) (rw y at h))
]

module _ (d : Dns) (t : TxtCodec) (scope : Scope) where
  apply_groups-IsGrown :
      (gs : List ZoneGroup) (b b' : Fake)
      → apply_groups d t scope fake_backend gs b ≡ (ok tt, b')
      → IsGrown (map asked gs) b b'
  unfolding apply_groups fake_backend
  apply_groups-IsGrown [] b b' h =
      subst (λ (c : Fake). IsGrown [] b c) (pure-eq-ok h).1
        (sym (append-nil b.applied), omega arith, refl)
  apply_groups-IsGrown (g ∷ gs) b b' h =
      let (u, c, x, k) =
        and_then-eq-ok (wrapping (fake_apply g.zone g.changes))
          (λ u. apply_groups d t scope fake_backend gs) b b' h in
      IsGrown-then (asked g ∷ []) (map asked gs) b c b'
        (fake_apply-IsGrown g.zone g.changes b c (wrapping-eq-ok (fake_apply g.zone g.changes) b x))
        (apply_groups-IsGrown gs c b' k)

  -- Every record of an applied change is one of the change set, under the zone that its name belongs
  -- to, and every record of the change set is in some applied change.
  abbrev pub IsSplit : List Zone → ChangeSet → List AppliedChange → Type 0
  IsSplit zones cs new =
      ((c : AppliedChange)
        → Memᴰ c new
        → (p : Part) (r : Record) → Memᴰ r (part_of p c.changes)
        → IsOf d (new_zone_index zones) cs c.zone.name p r)
      × ((p : Part) (r : Record)
          → Memᴰ r (part_of p cs)
          → (c : AppliedChange) × Memᴰ c new × Memᴰ r (part_of p c.changes))

  asked-IsSplit :
      (zones : List Zone) (cs : ChangeSet) (gs : List ZoneGroup)
      → group_by_zone d cs zones ≡ ok gs
      → IsSplit zones cs (map asked gs)
  asked-IsSplit zones cs gs h =
      let (own, complete) = group_by_zone-splits d cs zones gs h in
      (
        λ c m p r k.
            let (g, w, e) = mem_of_map asked gs m in
            subst (λ (n : Name). IsOf d (new_zone_index zones) cs n p r)
              (ap (λ (x : AppliedChange). x.zone.name) (sym e))
              (own g w p r (subst (λ (x : AppliedChange). Memᴰ r (part_of p x.changes)) e k)),
        λ p r m. let (g, w, k) = complete p r m in (asked g, mem-map asked gs w, k),
      )

  apply_in_scope-asks :
      (cs : ChangeSet) (b b' : Fake)
      → apply_in_scope d t scope fake_backend cs b ≡ (ok tt, b')
      → (new : List AppliedChange) × IsGrown new b b' × IsSplit b.zones cs new
  unfolding apply_in_scope fake_backend
  apply_in_scope-asks cs b b' h =
      let (u, b₁, x₁, h₁) = and_then-eq-ok (lift (validate_format d t cs)) _ b b' h in
      let (zones, b₂, x₂, h₂) = and_then-eq-ok fake_list_zones _ b₁ b' h₁ in
      let (groups, b₃, x₃, h₃) = and_then-eq-ok (lift (group_by_zone d cs zones)) _ b₂ b' h₂ in
      let first : b ≡ b₁ = ap (λ (p : Result (Unit {0}) × Fake). p.1) x₁ in
      let third : b₂ ≡ b₃ = ap (λ (p : Result (List ZoneGroup) × Fake). p.1) x₃ in
      let grouped : group_by_zone d cs zones ≡ ok groups =
        ap (λ (p : Result (List ZoneGroup) × Fake). p.0) x₃ in
      let (listed, second) = fake_list_zones-IsGrown b₁ b₂ x₂ in
      let same : zones ≡ b.zones = listed ∙ ap (λ (x : Fake). x.zones) (sym first) in
      (
        map asked groups,
        subst (λ (x : Fake). IsGrown (map asked groups) x b') (sym first)
            (IsGrown-then [] (map asked groups) b₁ b₂ b' second (
              subst (λ (x : Fake). IsGrown (map asked groups) x b') (sym third)
                (apply_groups-IsGrown groups b₃ b' h₃))),
        subst (λ (z : List Zone). IsSplit z cs (map asked groups)) same
            (asked-IsSplit zones cs groups grouped),
      )

  -- If ApplyChanges succeeds over the fake backend, then the changes that the backend was asked to
  -- apply, in the order that it records, are the change set's records in scope and no others, each
  -- under the zone that its name belongs to; as many applies were asked for as are recorded, and no
  -- records were listed.
  pub apply_changes-asks :
      (cs : ChangeSet) (b b' : Fake)
      → apply_changes d t scope fake_backend cs b ≡ (ok tt, b')
      → (new : List AppliedChange) × IsGrown new b b'
        × IsSplit b.zones (filter_to_scope d scope cs) new
  unfolding apply_changes
  apply_changes-asks cs b b' h = elim (Bool-cases (is_empty_changes cs || is_empty_scope scope)) [
    | inl y ↦ nothing (filter_to_scope_of_nothing d scope cs y) (pure-eq-ok (rw y at h)).1
    | inr n ↦ elim (Bool-cases (is_empty_changes (filter_to_scope d scope cs))) [
      | inl y ↦ nothing y (pure-eq-ok (rw (n, y) at h)).1
      | inr k ↦ apply_in_scope-asks (filter_to_scope d scope cs) b b' (rw (n, k) at h)
    ]
  ]
    where
      nothing :
          is_empty_changes (filter_to_scope d scope cs) ≡ true
          → b ≡ b'
          → (new : List AppliedChange) × IsGrown new b b'
            × IsSplit b.zones (filter_to_scope d scope cs) new
      nothing y same = (
        [],
        subst (λ (x : Fake). IsGrown [] b x) same (sym (append-nil b.applied), omega arith, refl),
        (λ c m. elim m [ ], λ p r m. absurd (no_record (filter_to_scope d scope cs) p y m)),
      )
