-- ===== src/Provider/Counted.antt =====
-- Lemmas on what `ApplyChanges` of internal/provider/apply.go measures, over all its groups.
use external_dns_iij_dpf_web.Base.{
  Bool-cases, List, Option, [], ap, arith, inl, inr, is_empty, length, refl, some, subst, sym, true,
  ◌+◌, ◌||◌, ◌∙◌, ◌∷◌, ◌≡◌,
}
use external_dns_iij_dpf_web.Calls.{and_then-eq-ok, lift, pure-eq-ok, wrapping, wrapping-eq-ok}
use external_dns_iij_dpf_web.Dnsname.Name.{Dns}
use external_dns_iij_dpf_web.Dnsname.Scope.{Scope, is_empty_scope}
use external_dns_iij_dpf_web.Errors.{Result, is_ok, ok}
use external_dns_iij_dpf_web.Provider.Apply.{
  Part, ZoneGroup, creating, deleting, filter_to_scope, group_by_zone, part_of, updating,
}
use external_dns_iij_dpf_web.Provider.Backend.{Backend}
use external_dns_iij_dpf_web.Provider.Counting.{
  Counts, Counts-then, IsOnce, applied_count, failure_count, metrics_recorder,
  record_outcome-Counts,
}
use external_dns_iij_dpf_web.Provider.Observed.{
  Provider, World, apply_group, log_change_set, new_provider, observed_changes, observed_groups,
  observed_in_scope, on_backend, on_lines, with_telemetry,
}
use external_dns_iij_dpf_web.Provider.Totals.{group_by_zone-total, total}
use external_dns_iij_dpf_web.Provider.Txt.{TxtCodec}
use external_dns_iij_dpf_web.Provider.Types.{ChangeSet, Zone, is_empty_changes}
use external_dns_iij_dpf_web.Provider.Validate.{validate_format}
use external_dns_iij_dpf_web.Provider.Writing.{filter_to_scope_of_nothing}
use external_dns_iij_dpf_web.Telemetry.Metrics.{Metrics}
use external_dns_iij_dpf_web.Telemetry.Slog.{Logger}

module _ {S L : Type 0} (scope : Scope) (b : Backend S) (logger : Logger L) where
  -- The provider as the command builds it.
  abbrev pub measured_provider : Provider S L (Option Metrics)
  measured_provider = with_telemetry (some metrics_recorder) (new_provider scope b logger)

module _ {S L : Type 0} (d : Dns) (t : TxtCodec) (scope : Scope) (b : Backend S) (logger : Logger L)
    (order : Option Metrics → ChangeSet → List Part)
    (once : (r : Option Metrics) (cs : ChangeSet) → IsOnce (order r cs)) where
  apply_group-Counts :
      (g : ZoneGroup) (w : World S L (Option Metrics)) (m : Metrics)
      → w.measured ≡ some m
      → is_ok (apply_group d (measured_provider scope b logger) order g w).0 ≡ true
      → Counts
          (λ part. length (part_of part g.changes))
          w.measured
          ((apply_group d (measured_provider scope b logger) order g w).1).measured
  unfolding apply_group on_backend on_lines with_telemetry new_provider
  apply_group-Counts g w m e h =
      rw (h, e)
        (record_outcome-Counts (order (some m) g.changes) g.changes m (once (some m) g.changes))

  observed_groups-Counts :
      (gs : List ZoneGroup) (w w' : World S L (Option Metrics)) (m : Metrics)
      → w.measured ≡ some m
      → observed_groups d (measured_provider scope b logger) order gs w ≡ (ok tt, w')
      → Counts (λ part. total part gs) w.measured w'.measured
  unfolding observed_groups
  observed_groups-Counts [] w w' m e h =
      let same = (pure-eq-ok h).1 in
      subst (λ (v : World S L (Option Metrics)). Counts (λ part. 0) w.measured v.measured) same
        (m, e, λ part. omega arith, refl)
  observed_groups-Counts (g ∷ gs) w w' m e h =
      let (u, v, x, k) =
        and_then-eq-ok (wrapping (apply_group d (measured_provider scope b logger) order g))
          (λ u. observed_groups d (measured_provider scope b logger) order gs) w w' h in
      let done = wrapping-eq-ok (apply_group d (measured_provider scope b logger) order g) w x in
      let first : Counts (λ part. length (part_of part g.changes)) w.measured v.measured =
        subst
          (λ (p : World S L (Option Metrics)).
            Counts (λ part. length (part_of part g.changes)) w.measured p.measured)
          (ap (λ (p : Result (Unit {0}) × World S L (Option Metrics)). p.1) done)
          (apply_group-Counts g w m e
            (ap (λ (p : Result (Unit {0}) × World S L (Option Metrics)). is_ok p.0) done)) in
      Counts-then (λ part. length (part_of part g.changes)) (λ part. total part gs)
        (λ part. total part (g ∷ gs)) w.measured v.measured w'.measured (λ part. refl) first
        (observed_groups-Counts gs v w' first.0 first.1 k)

  observed_in_scope-Counts :
      (cs : ChangeSet) (w w' : World S L (Option Metrics)) (m : Metrics)
      → w.measured ≡ some m
      → observed_in_scope d (measured_provider scope b logger) order t cs w ≡ (ok tt, w')
      → Counts (λ part. length (part_of part cs)) w.measured w'.measured
  unfolding observed_in_scope on_backend
  observed_in_scope-Counts cs w w' m e h =
      let (u, w₁, x₁, h₁) = and_then-eq-ok (lift (validate_format d t cs)) _ w w' h in
      let (zones, w₂, x₂, h₂) =
        and_then-eq-ok (on_backend (measured_provider scope b logger).backend.list_zones) _ w₁ w'
          h₁ in
      let (groups, w₃, x₃, h₃) = and_then-eq-ok (lift (group_by_zone d cs zones)) _ w₂ w' h₂ in
      let kept : w₃.measured ≡ w.measured =
        sym (ap (λ (p : Result (List ZoneGroup) × World S L (Option Metrics)). (p.1).measured) x₃)
        ∙ sym (ap (λ (p : Result (List Zone) × World S L (Option Metrics)). (p.1).measured) x₂)
        ∙ sym (ap (λ (p : Result (Unit {0}) × World S L (Option Metrics)). (p.1).measured) x₁) in
      let grouped : group_by_zone d cs zones ≡ ok groups =
        ap (λ (p : Result (List ZoneGroup) × World S L (Option Metrics)). p.0) x₃ in
      let (n, same, counts, failures) = observed_groups-Counts groups w₃ w' m (kept ∙ e) h₃ in
      (
        n,
        same,
        λ part. omega (
          arith,
          counts part,
          group_by_zone-total d part cs zones groups grouped,
          ap (λ (r : Option Metrics). applied_count part r) kept,
        ),
        failures ∙ ap (λ (r : Option Metrics). failure_count r) kept,
      )

is_empty-length : {A : Type 0} (xs : List A) → is_empty xs ≡ true → length xs ≡ 0
is_empty-length [] h = refl
is_empty-length (x ∷ xs) h = cc h

is_empty_changes-length :
    (cs : ChangeSet) (part : Part) → is_empty_changes cs ≡ true → length (part_of part cs) ≡ 0
is_empty_changes-length cs creating h = is_empty-length cs.create (ground arith)
is_empty_changes-length cs updating h = is_empty-length cs.update_to (ground arith)
is_empty_changes-length cs deleting h = is_empty-length cs.remove (ground arith)

module _ {S L : Type 0} (d : Dns) (t : TxtCodec) (scope : Scope) (b : Backend S) (logger : Logger L)
    (order : Option Metrics → ChangeSet → List Part)
    (once : (r : Option Metrics) (cs : ChangeSet) → IsOnce (order r cs)) where
  -- If ApplyChanges succeeds, then the counter of changes that went well has grown, for each of the
  -- three operations, by exactly the number of records of the change set that are in scope, and no
  -- apply has been counted as failed; in whatever order the map of operations is gone through, as
  -- long as each operation comes up once.
  pub observed_changes-counts :
      (cs : ChangeSet) (w w' : World S L (Option Metrics)) (m : Metrics)
      → w.measured ≡ some m
      → observed_changes d (measured_provider scope b logger) order t cs w ≡ (ok tt, w')
      → ((part : Part)
          → applied_count part w'.measured
            ≡ applied_count part w.measured + length (part_of part (filter_to_scope d scope cs)))
        × (failure_count w'.measured ≡ failure_count w.measured)
  unfolding observed_changes on_lines with_telemetry new_provider
  observed_changes-counts cs w w' m e h =
      elim (Bool-cases (is_empty_changes cs || is_empty_scope scope)) [
        | inl y ↦ nothing (filter_to_scope_of_nothing d scope cs y) (
            ap (λ (p : Result (Unit {0}) × World S L (Option Metrics)). (p.1).measured) (rw y at h))
        | inr n ↦ elim (Bool-cases (is_empty_changes (filter_to_scope d scope cs))) [
          | inl y ↦ nothing y (
              ap (λ (p : Result (Unit {0}) × World S L (Option Metrics)). (p.1).measured)
                (rw (n, y) at h))
          | inr k ↦
              (let (o, some_count, counts, failures) =
                  observed_in_scope-Counts d t scope b logger order once
                    (filter_to_scope d scope cs)
                    (on_lines (log_change_set (measured_provider scope b logger) cs) w) w' m e
                    (rw (n, k) at h) in
                (counts, failures))
        ]
      ]
    where
      nothing :
          is_empty_changes (filter_to_scope d scope cs) ≡ true
          → w.measured ≡ w'.measured
          → ((part : Part)
              → applied_count part w'.measured
                ≡ applied_count part w.measured
                  + length (part_of part (filter_to_scope d scope cs)))
            × (failure_count w'.measured ≡ failure_count w.measured)
      nothing y same = (
        λ part. omega (
          arith,
          is_empty_changes-length (filter_to_scope d scope cs) part y,
          ap (λ (r : Option Metrics). applied_count part r) same,
        ),
        ap (λ (r : Option Metrics). failure_count r) (sym same),
      )
