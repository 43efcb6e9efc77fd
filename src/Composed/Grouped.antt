-- ===== src/Composed/Grouped.antt =====
-- Lemmas on `ApplyChanges` of internal/provider over the client of internal/dpf: the groups of the
-- zones, once all applies have gone well.
use external_dns_iij_dpf_web.Base.{
  ==_refl, All, All-mem, All-of_mem, Bool-cases, List, [], ap, eq_list, eq_ℕ, false, inl, inr,
  list_eq, list_eq_iff, mem-append_cases, mem-append_left, mem-append_right, refl, subst, sym, true,
  ◌==◌, ◌||◌, ◌∙◌, ◌∷◌, ◌≡◌, ◌≢◌, ◌⊎◌,
}
use external_dns_iij_dpf_web.Base.Int.{eq_ℤ}
use external_dns_iij_dpf_web.Base.Text.{Text}
use external_dns_iij_dpf_web.Calls.{and_then-eq-ok, lift, pure-eq-ok}
use external_dns_iij_dpf_web.Composed.Zones.{
  Applied, Applied-leaves, Applied-zone, DistinctIds, DpfLaws, apply_groups-Applied,
}
use external_dns_iij_dpf_web.Dnsname.Name.{Dns, eq_name}
use external_dns_iij_dpf_web.Dnsname.Scope.{Scope, is_empty_scope}
use external_dns_iij_dpf_web.Dpf.Apply.{apply}
use external_dns_iij_dpf_web.Dpf.Client.{
  Client, ClientState, client_backend, list_zones, listing, observe,
}
use external_dns_iij_dpf_web.Dpf.Content.{has_merge_key}
use external_dns_iij_dpf_web.Dpf.Rrtype.{eq_rrtype}
use external_dns_iij_dpf_web.Dpf.Wire.{MergeKey, WireRecord, eq_merge_key, provider_key}
use external_dns_iij_dpf_web.Errors.{Result, err, ok, ok-injective}
use external_dns_iij_dpf_web.Provider.Apply.{
  Part, ZoneGroup, apply_changes, apply_in_scope, creating, filter_to_scope, group_by_zone, part_of,
  updating,
}
use external_dns_iij_dpf_web.Provider.Distinct.{DistinctZones, group_by_zone-DistinctZones}
use external_dns_iij_dpf_web.Provider.Txt.{TxtCodec}
use external_dns_iij_dpf_web.Provider.Types.{
  ChangeSet, Record, Zone, added_records, is_empty_changes,
}
use external_dns_iij_dpf_web.Provider.Validate.{validate_format}
use external_dns_iij_dpf_web.Provider.Writing.{filter_to_scope_of_nothing, no_record}
use external_dns_iij_dpf_web.Telemetry.Metrics.{eq_attributes}
use external_dns_iij_dpf_web.Webhook.Handler.{applied, listed}
use mathlib.Core.List.{Memᴰ}

-- Two zones that are listed with one id have one name.
abbrev pub HasIds : List Zone → Type 0
HasIds zones = (y z : Zone) → Memᴰ y zones → Memᴰ z zones → y.id ≡ z.id → y.name ≡ z.name

pub part_of_added :
    (cs : ChangeSet) (r : Record)
    → Memᴰ r (added_records cs)
    → (p : Part) × Memᴰ r (part_of p cs)
      × ((c : ChangeSet) → Memᴰ r (part_of p c) → Memᴰ r (added_records c))
part_of_added cs r m = elim (mem-append_cases cs.create m) [
  | inl k ↦ (creating, k, λ c n. mem-append_left c.update_to n)
  | inr k ↦ (updating, k, λ c n. mem-append_right c.create n)
]

-- What is created or updated in a group is created or updated in the change set.
pub own_added :
    (cs : ChangeSet) (g : ZoneGroup)
    → ((p : Part) (r : Record) → Memᴰ r (part_of p g.changes) → Memᴰ r (part_of p cs))
    → (q : Record) → Memᴰ q (added_records g.changes)
    → Memᴰ q (added_records cs)
own_added cs g own q m = elim (mem-append_cases g.changes.create m) [
  | inl k ↦ mem-append_left cs.update_to (own creating q k)
  | inr k ↦ mem-append_right cs.create (own updating q k)
]

pub has_own_key : (r : Record) (k : MergeKey) → provider_key r ≡ ok k → has_merge_key k r ≡ true
has_own_key r k e =
    ap (λ (x : Result MergeKey). elim x [ ok j ↦ j == k | err e ↦ false ]) e ∙ ==_refl k

pub not_empty :
    (cs : ChangeSet) (p : Part) {r : Record} → Memᴰ r (part_of p cs) → is_empty_changes cs ≡ false
not_empty cs p m = elim (Bool-cases (is_empty_changes cs)) [
  | inl y ↦ absurd (no_record cs p y m)
  | inr n ↦ n
]

-- The group of an id, or that there is none.
pub group_of :
    (id : Text) (gs : List ZoneGroup)
    → All (λ g. id ≢ g.zone.id) gs ⊎ ((g : ZoneGroup) × Memᴰ g gs × (g.zone.id ≡ id))
group_of id [] = inl tt
group_of id (g ∷ gs) = elim (Bool-cases (list_eq g.zone.id id)) [
  | inl y ↦ inr (g, Memᴰ.head refl, (list_eq_iff g.zone.id id).0 y)
  | inr n ↦ elim (group_of id gs) [
    | inl rest ↦ inl (λ e. cc (n, (list_eq_iff g.zone.id id).1 (sym e)), rest)
    | inr (h, m, e) ↦ inr (h, Memᴰ.tail m, e)
  ]
]

module _ {S R : Type 0} (d : Dns) (t : TxtCodec) (c : Client S R)
    (published : Text → S → List WireRecord) (laws : DpfLaws d t c.api published)
    (scope : Scope) where
  distinct_ids :
      (zones : List Zone) (gs : List ZoneGroup)
      → HasIds zones
      → DistinctZones gs
      → All (λ g. Memᴰ g.zone zones) gs
      → DistinctIds d t c published laws gs
  distinct_ids zones [] ids n m = tt
  distinct_ids zones (g ∷ gs) ids n m = (
    All-of_mem (λ h. h.zone.id ≢ g.zone.id) gs
        (λ h k same.
          All-mem (λ h. h.zone.name ≢ g.zone.name) n.0 k
            (ids h.zone g.zone (All-mem (λ h. Memᴰ h.zone zones) m.1 k) m.0 same)),
    distinct_ids zones gs ids n.1 m.1,
  )

  list_zones-published :
      (w : ClientState S R) (id : Text)
      → published id ((list_zones c d w).1).api ≡ published id w.api
  unfolding list_zones listing observe
  list_zones-published w id = laws.runs _ id (λ s. laws.lists id s) w.api

  -- What a successful ApplyChanges has done: nothing, where nothing of the change set is in scope, or
  -- an apply to each zone.
  abbrev Done : ChangeSet → ClientState S R → ClientState S R → Type 0
  Done cs w w' =
      ((is_empty_changes cs ≡ true) × (w ≡ w'))
      ⊎ ((zones : List Zone) × (gs : List ZoneGroup) × (v : ClientState S R) × (list_zones c d w
            ≡ (ok zones, v))
          × (group_by_zone d cs zones ≡ ok gs)
          × Applied d t c published laws gs v w')

  apply_in_scope-Done :
      (cs : ChangeSet) (w w' : ClientState S R)
      → apply_in_scope d t scope (client_backend c d t) cs w ≡ (ok tt, w')
      → Done cs w w'
  unfolding apply_in_scope client_backend
  apply_in_scope-Done cs w w' h =
      let (u, w₁, x₁, h₁) = and_then-eq-ok (lift (validate_format d t cs)) _ w w' h in
      let (zones, w₂, x₂, h₂) = and_then-eq-ok (list_zones c d) _ w₁ w' h₁ in
      let (gs, w₃, x₃, h₃) = and_then-eq-ok (lift (group_by_zone d cs zones)) _ w₂ w' h₂ in
      let first : w ≡ w₁ = ap (λ (p : Result (Unit {0}) × ClientState S R). p.1) x₁ in
      let third : w₂ ≡ w₃ = ap (λ (p : Result (List ZoneGroup) × ClientState S R). p.1) x₃ in
      inr (
        zones,
        gs,
        w₂,
        subst (λ (x : ClientState S R). list_zones c d x ≡ (ok zones, w₂)) (sym first) x₂,
        ap (λ (p : Result (List ZoneGroup) × ClientState S R). p.0) x₃,
        subst (λ (x : ClientState S R). Applied d t c published laws gs x w') (sym third)
            (apply_groups-Applied d t c published laws scope gs w₃ w' h₃),
      )

  apply_changes-Done :
      (cs : ChangeSet) (w w' : ClientState S R)
      → apply_changes d t scope (client_backend c d t) cs w ≡ (ok tt, w')
      → Done (filter_to_scope d scope cs) w w'
  unfolding apply_changes
  apply_changes-Done cs w w' h = elim (Bool-cases (is_empty_changes cs || is_empty_scope scope)) [
    | inl y ↦ inl (filter_to_scope_of_nothing d scope cs y, (pure-eq-ok (rw y at h)).1)
    | inr n ↦ elim (Bool-cases (is_empty_changes (filter_to_scope d scope cs))) [
      | inl y ↦ inl (y, (pure-eq-ok (rw (n, y) at h)).1)
      | inr k ↦ apply_in_scope-Done (filter_to_scope d scope cs) w w' (rw (n, k) at h)
    ]
  ]

  -- The group of a zone, once its apply has gone well.
  pub in_group :
      (cs : ChangeSet) (w w' : ClientState S R) (zones : List Zone)
      → apply_changes d t scope (client_backend c d t) cs w ≡ (ok tt, w')
      → (list_zones c d w).0 ≡ ok zones
      → HasIds zones
      → ((is_empty_changes (filter_to_scope d scope cs) ≡ true) × (w ≡ w'))
        ⊎ ((gs : List ZoneGroup) × (group_by_zone d (filter_to_scope d scope cs) zones ≡ ok gs)
            × All (λ g. Memᴰ g.zone zones) gs
            × ((g : ZoneGroup)
                → Memᴰ g gs
                → (u : S) × (v : S) × (apply d t c.api.applier g.zone g.changes u ≡ (ok tt, v))
                  × (published g.zone.id u ≡ published g.zone.id w.api)
                  × (published g.zone.id w'.api ≡ published g.zone.id v))
            × ((id : Text)
                → All (λ g. id ≢ g.zone.id) gs
                → published id w'.api ≡ published id w.api))
  in_group cs w w' zones h lists ids = elim (apply_changes-Done cs w w' h) [
    | inl x ↦ inl x
    | inr (zones', gs, v, listed, grouped', applied) ↦
        let same : zones' ≡ zones =
          ok-injective
            (ap (λ (p : Result (List Zone) × ClientState S R). p.0) (sym listed) ∙ lists) in
        let grouped : group_by_zone d (filter_to_scope d scope cs) zones ≡ ok gs =
          subst (λ (l : List Zone). group_by_zone d (filter_to_scope d scope cs) l ≡ ok gs) same
            grouped' in
        let (distinct, members) =
          group_by_zone-DistinctZones d (filter_to_scope d scope cs) zones gs grouped in
        let started : (id : Text) → published id v.api ≡ published id w.api = λ id.
          ap (λ (p : Result (List Zone) × ClientState S R). published id (p.1).api) (sym listed)
          ∙ list_zones-published w id in
        inr (
          gs,
          grouped,
          members,
          λ g m.
              let (x, y, a, before, after) =
                Applied-zone d t c published laws gs v w' g
                  (distinct_ids zones gs ids distinct members) applied m in
              (x, y, a, before ∙ started g.zone.id, after),
          λ id n. Applied-leaves d t c published laws gs v w' id n applied ∙ started id,
        )
  ]
