-- ===== src/Provider/Observing.antt =====
-- Lemmas on what internal/provider/provider.go and apply.go log and measure: it decides nothing.
use external_dns_iij_dpf_web.Base.{Bool-cases, List, [], inl, inr, refl, sym, ◌||◌, ◌∷◌, ◌≡◌}
use external_dns_iij_dpf_web.Calls.{Call, and_then, continue, lift, wrapping}
use external_dns_iij_dpf_web.Dnsname.Name.{Dns}
use external_dns_iij_dpf_web.Dnsname.Scope.{is_empty_scope}
use external_dns_iij_dpf_web.Errors.{Result, err, ok}
use external_dns_iij_dpf_web.Provider.Apply.{
  Part, ZoneGroup, apply_changes, apply_groups, apply_in_scope, filter_to_scope, group_by_zone,
}
use external_dns_iij_dpf_web.Provider.Observed.{
  Provider, World, apply_group, log_change_set, log_records, observed_changes, observed_groups,
  observed_in_scope, observed_records, on_backend, on_lines,
}
use external_dns_iij_dpf_web.Provider.Service.{gather, records}
use external_dns_iij_dpf_web.Provider.Txt.{TxtCodec}
use external_dns_iij_dpf_web.Provider.Types.{ChangeSet, Record, Zone, is_empty_changes}
use external_dns_iij_dpf_web.Provider.Validate.{validate_format}
use external_dns_iij_dpf_web.Provider.Zoneindex.{new_zone_index}

module _ {S L R A : Type 0} where
  -- A call that answers, and does behind the backend, what another one does.
  abbrev Follows : Call (World S L R) A → Call S A → Type 0
  Follows m n = (w : World S L R) → ((m w).0 ≡ (n w.behind).0) × (((m w).1).behind ≡ (n w.behind).1)

  on_backend-Follows : (n : Call S A) → Follows (on_backend n) n
  unfolding on_backend
  on_backend-Follows n w = (refl, refl)

  wrapping-Follows :
      (m : Call (World S L R) A) (n : Call S A) → Follows m n → Follows (wrapping m) (wrapping n)
  wrapping-Follows m n h w = rw ((h w).0) (refl, (h w).1)

  -- What is logged of an answer afterwards.
  logged-Follows :
      (m : Call (World S L R) A) (n : Call S A) (line : A → L → L)
      → Follows m n
      → Follows (and_then m (λ a v. (ok a, on_lines (line a) v))) n
  unfolding on_lines
  logged-Follows m n line h w = rw (sym (h w).0, sym (h w).1) (go (m w).0 (m w).1)
    where
      go :
          (r : Result A) (v : World S L R)
          → ((continue r (λ a v. (ok a, on_lines (line a) v)) v).0 ≡ r)
            × (((continue r (λ a v. (ok a, on_lines (line a) v)) v).1).behind ≡ v.behind)
      go (ok a) v = (refl, refl)
      go (err e) v = (refl, refl)

module _ {S L R A B : Type 0} where
  continue-Follows :
      (r : Result A) (f : A → Call (World S L R) B) (g : A → Call S B)
      → ((a : A) → Follows (f a) (g a))
      → (v : World S L R)
      → ((continue r f v).0 ≡ (continue r g v.behind).0)
        × (((continue r f v).1).behind ≡ (continue r g v.behind).1)
  continue-Follows (ok a) f g k v = k a v
  continue-Follows (err e) f g k v = (refl, refl)

  and_then-Follows :
      (m : Call (World S L R) A) (n : Call S A) (f : A → Call (World S L R) B) (g : A → Call S B)
      → Follows m n
      → ((a : A) → Follows (f a) (g a))
      → Follows (and_then m f) (and_then n g)
  and_then-Follows m n f g h k w =
      rw (sym (h w).0, sym (h w).1) (continue-Follows (m w).0 f g k (m w).1)

module _ {S L R : Type 0} (d : Dns) (p : Provider S L R) (order : R → ChangeSet → List Part) where
  apply_group-Follows :
      (g : ZoneGroup) → Follows (apply_group d p order g) (p.backend.apply g.zone g.changes)
  unfolding apply_group on_backend on_lines
  apply_group-Follows g w = (refl, refl)

  observed_groups-Follows :
      (t : TxtCodec) (gs : List ZoneGroup)
      → Follows (observed_groups d p order gs) (apply_groups d t p.scope p.backend gs)
  unfolding observed_groups apply_groups
  observed_groups-Follows t [] = λ w. (refl, refl)
  observed_groups-Follows t (g ∷ gs) =
      and_then-Follows (wrapping (apply_group d p order g))
        (wrapping (p.backend.apply g.zone g.changes)) (λ u. observed_groups d p order gs)
        (λ u. apply_groups d t p.scope p.backend gs)
        (wrapping-Follows (apply_group d p order g) (p.backend.apply g.zone g.changes)
          (apply_group-Follows g))
        (λ u. observed_groups-Follows t gs)

  observed_in_scope-Follows :
      (t : TxtCodec) (cs : ChangeSet)
      → Follows (observed_in_scope d p order t cs) (apply_in_scope d t p.scope p.backend cs)
  unfolding observed_in_scope apply_in_scope
  observed_in_scope-Follows t cs =
      and_then-Follows (lift (validate_format d t cs)) (lift (validate_format d t cs)) _ _
        (λ w. (refl, refl))
        λ u. and_then-Follows _ _ _ _ (on_backend-Follows p.backend.list_zones) λ zones.
          and_then-Follows (lift (group_by_zone d cs zones)) (lift (group_by_zone d cs zones)) _ _
            (λ w. (refl, refl)) λ groups. observed_groups-Follows t groups

  -- Logging and measuring decide nothing of an apply: whatever the logger and the recorder do, and
  -- in whatever order the map of operations is gone through, ApplyChanges answers, and asks of the
  -- backend, what it does without them.
  pub observed_changes-apply_changes :
      (t : TxtCodec) (cs : ChangeSet) (w : World S L R)
      → ((observed_changes d p order t cs w).0
          ≡ (apply_changes d t p.scope p.backend cs w.behind).0)
        × (((observed_changes d p order t cs w).1).behind
            ≡ (apply_changes d t p.scope p.backend cs w.behind).1)
  unfolding observed_changes apply_changes on_lines
  observed_changes-apply_changes t cs w =
      elim (Bool-cases (is_empty_changes cs || is_empty_scope p.scope)) [
        | inl y ↦ rw y (refl, refl)
        | inr n ↦ elim (Bool-cases (is_empty_changes (filter_to_scope d p.scope cs))) [
          | inl y ↦ rw (n, y) (refl, refl)
          | inr m ↦
              rw (n, m)
                (observed_in_scope-Follows t (filter_to_scope d p.scope cs)
                  (on_lines (log_change_set p cs) w))
        ]
      ]

  -- Nor do they of a listing: Records answers, and asks of the backend, what it does without them.
  pub observed_records-records :
      (w : World S L R)
      → ((observed_records d p order w).0 ≡ (records d p.scope p.backend w.behind).0)
        × (((observed_records d p order w).1).behind ≡ (records d p.scope p.backend w.behind).1)
  unfolding observed_records records
  observed_records-records w = elim (Bool-cases (is_empty_scope p.scope)) [
    | inl y ↦ rw y (refl, refl)
    | inr n ↦
        let reading : List Zone → Call S (List Record) =
          λ zones. gather d p.scope p.backend (new_zone_index zones) zones in
        rw n (
          and_then-Follows (on_backend p.backend.list_zones) p.backend.list_zones
            (λ zones.
              and_then (on_backend (reading zones))
                (λ out v. (ok out, on_lines (log_records p out) v)))
            reading (on_backend-Follows p.backend.list_zones)
            (λ zones.
              logged-Follows (on_backend (reading zones)) (reading zones) (λ out. log_records p out)
                (on_backend-Follows (reading zones)))
            w)
  ]
