-- ===== src/Composed/Zones.antt =====
-- Lemmas on the loop over the zones of `ApplyChanges` over the client of internal/dpf: each zone is
-- written once, and the writes to the others leave it alone.
use external_dns_iij_dpf_web.Base.{
  All, All-mem, All-of_mem, Bool-cases, List, [], ap, inl, inr, refl, subst, sym, ◌∙◌, ◌∷◌, ◌≡◌,
  ◌≢◌,
}
use external_dns_iij_dpf_web.Base.Text.{Text}
use external_dns_iij_dpf_web.Calls.{Call, and_then-eq-ok, pure-eq-ok, wrapping, wrapping-eq-ok}
use external_dns_iij_dpf_web.Dnsname.Name.{Dns}
use external_dns_iij_dpf_web.Dnsname.Scope.{Scope}
use external_dns_iij_dpf_web.Dpf.Apply.{Edit, apply, edit}
use external_dns_iij_dpf_web.Dpf.Client.{
  Client, ClientState, DpfGo, client_apply, client_backend, observe,
}
use external_dns_iij_dpf_web.Dpf.Published.{ApplierLaws}
use external_dns_iij_dpf_web.Dpf.Wire.{WireRecord}
use external_dns_iij_dpf_web.Errors.{Result, ok}
use external_dns_iij_dpf_web.Provider.Apply.{ZoneGroup, apply_groups}
use external_dns_iij_dpf_web.Provider.Txt.{TxtCodec}
use external_dns_iij_dpf_web.Provider.Types.{ChangeSet, Zone, is_empty_changes}
use mathlib.Core.List.{Memᴰ}

module _ {S : Type 0} (d : Dns) (t : TxtCodec) (api : DpfGo S)
    (published : Text → S → List WireRecord) where
  -- What dpf-go documents: its applier keeps its laws and leaves other zones alone, the listing of
  -- zones publishes nothing, and `Operation` does nothing but to run its call.
  pub record DpfLaws : Type 1 where
    pub applies : ApplierLaws d t api.applier published
    pub leaves :
        (id other : Text) (e : Edit) (s : S)
        → other ≢ id
        → published other (api.applier.run id e s).state ≡ published other s
    pub lists : (id : Text) (s : S) → published id (api.zones s).1 ≡ published id s
    pub runs :
        {A : Type 0} (m : Call S A) (id : Text)
        → ((s : S) → published id (m s).1 ≡ published id s)
        → (s : S) → published id (api.operation m s).1 ≡ published id s

module _ {S R : Type 0} (d : Dns) (t : TxtCodec) (c : Client S R)
    (published : Text → S → List WireRecord) (laws : DpfLaws d t c.api published) where
  narrowed : Result (Unit {0}) × ClientState S R → Result (Unit {0}) × S
  narrowed (r, x) = (r, x.api)

  -- Measuring decides nothing of an apply.
  client_apply-apply :
      (zone : Zone) (cs : ChangeSet) (w v : ClientState S R)
      → client_apply c d t zone cs w ≡ (ok tt, v)
      → apply d t c.api.applier zone cs w.api ≡ (ok tt, v.api)
  unfolding client_apply apply observe narrowed
  client_apply-apply zone cs w v h = elim (Bool-cases (is_empty_changes cs)) [
    | inl y ↦ rw y (ap narrowed (rw y at h))
    | inr n ↦ rw n (ap narrowed (rw n at h))
  ]

  -- An apply to a zone leaves another one alone.
  client_apply-leaves :
      (zone : Zone) (cs : ChangeSet) (w : ClientState S R) (other : Text)
      → other ≢ zone.id
      → published other ((client_apply c d t zone cs w).1).api ≡ published other w.api
  unfolding client_apply observe
  client_apply-leaves zone cs w other n = elim (Bool-cases (is_empty_changes cs)) [
    | inl y ↦ rw y refl
    | inr m ↦ rw m (laws.leaves zone.id other (edit d t cs) w.api n)
  ]

  -- The groups are applied one after the other, each of them well.
  abbrev pub Applied : List ZoneGroup → ClientState S R → ClientState S R → Type 0
  Applied [] w w' = w ≡ w'
  Applied (g ∷ gs) w w' =
      (v : ClientState S R) × (client_apply c d t g.zone g.changes w ≡ (ok tt, v)) × Applied gs v w'

  pub apply_groups-Applied :
      (scope : Scope) (gs : List ZoneGroup) (w w' : ClientState S R)
      → apply_groups d t scope (client_backend c d t) gs w ≡ (ok tt, w')
      → Applied gs w w'
  unfolding apply_groups client_backend
  apply_groups-Applied scope [] w w' h = (pure-eq-ok h).1
  apply_groups-Applied scope (g ∷ gs) w w' h =
      let (u, v, x, k) =
        and_then-eq-ok (wrapping (client_apply c d t g.zone g.changes))
          (λ u. apply_groups d t scope (client_backend c d t) gs) w w' h in
      (
        v,
        wrapping-eq-ok (client_apply c d t g.zone g.changes) w x,
        apply_groups-Applied scope gs v w' k,
      )

  -- A zone that no group is for publishes what it did.
  pub Applied-leaves :
      (gs : List ZoneGroup) (w w' : ClientState S R) (id : Text)
      → All (λ g. id ≢ g.zone.id) gs
      → Applied gs w w'
      → published id w'.api ≡ published id w.api
  Applied-leaves [] w w' id n h = ap (λ (x : ClientState S R). published id x.api) (sym h)
  Applied-leaves (g ∷ gs) w w' id n (v, x, k) =
      Applied-leaves gs v w' id n.1 k
      ∙ ap (λ (p : Result (Unit {0}) × ClientState S R). published id (p.1).api) (sym x)
      ∙ client_apply-leaves g.zone g.changes w id n.0

  -- No id twice among the groups.
  abbrev pub DistinctIds : List ZoneGroup → Type 0
  DistinctIds [] = Unit
  DistinctIds (g ∷ gs) = All (λ h. h.zone.id ≢ g.zone.id) gs × DistinctIds gs

  -- The zone of a group: its one apply takes what the zone published before to what it publishes in
  -- the end.
  pub Applied-zone :
      (gs : List ZoneGroup) (w w' : ClientState S R) (g : ZoneGroup)
      → DistinctIds gs
      → Applied gs w w'
      → Memᴰ g gs
      → (u : S) × (v : S) × (apply d t c.api.applier g.zone g.changes u ≡ (ok tt, v))
        × (published g.zone.id u ≡ published g.zone.id w.api)
        × (published g.zone.id w'.api ≡ published g.zone.id v)
  Applied-zone [] w w' g n h m = elim m [ ]
  Applied-zone (h ∷ gs) w w' g n (v, x, k) (Memᴰ.tail m) =
      let (u, y, a, before, after) = Applied-zone gs v w' g n.1 k m in
      (
        u,
        y,
        a,
        before
            ∙ ap (λ (p : Result (Unit {0}) × ClientState S R). published g.zone.id (p.1).api)
                (sym x)
            ∙ client_apply-leaves h.zone h.changes w g.zone.id
                (All-mem (λ k. k.zone.id ≢ h.zone.id) n.0 m),
        after,
      )
  Applied-zone (h ∷ gs) w w' g n (v, x, k) (Memᴰ.head e) = (
    w.api,
    v.api,
    client_apply-apply g.zone g.changes w v
        (subst (λ (b : ZoneGroup). client_apply c d t b.zone b.changes w ≡ (ok tt, v)) (sym e) x),
    refl,
    Applied-leaves gs v w' g.zone.id
        (All-of_mem (λ b. g.zone.id ≢ b.zone.id) gs
          (λ b m same.
            All-mem (λ k. k.zone.id ≢ h.zone.id) n.0 m
              (sym same ∙ ap (λ (b : ZoneGroup). b.zone.id) e)))
        k,
  )
