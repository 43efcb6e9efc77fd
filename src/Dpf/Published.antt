-- ===== src/Dpf/Published.antt =====
-- Lemmas on what DPF publishes behind `Client.Apply` of internal/dpf/apply.go, for a zone applier
-- that does what dpf-go documents of it.
use external_dns_iij_dpf_web.Base.{
  Bool-cases, List, Option-cases, any, ap, eq_list, eq_ℕ, false, inl, inr, map, mem-map, refl,
  subst, sym, true, ◌++◌, ◌∙◌, ◌∷◌, ◌≡◌, ◌≢◌, ◌⊎◌,
}
use external_dns_iij_dpf_web.Base.Int.{eq_ℤ}
use external_dns_iij_dpf_web.Base.Text.{Text}
use external_dns_iij_dpf_web.Dnsname.Name.{Dns, eq_name}
use external_dns_iij_dpf_web.Dpf.Apply.{Outcome, ZoneApplier, apply, apply_error, edit}
use external_dns_iij_dpf_web.Dpf.Content.{has_merge_key}
use external_dns_iij_dpf_web.Dpf.Editing.{edit-submits}
use external_dns_iij_dpf_web.Dpf.Guard.{unchanged}
use external_dns_iij_dpf_web.Dpf.Guarded.{IsExact}
use external_dns_iij_dpf_web.Dpf.Keyed.{IsParsed, wire_key_of_added}
use external_dns_iij_dpf_web.Dpf.Labelled.{apply_managed_by-eq-map, marked, raw_key-marked}
use external_dns_iij_dpf_web.Dpf.Lock.{new_lock_wait, wait_steps}
use external_dns_iij_dpf_web.Dpf.Merge.{merge, non_nil_labels}
use external_dns_iij_dpf_web.Dpf.Preserved.{
  HasValues, IsUntouched, NoRepeats, merge-added, merge-untouched,
}
use external_dns_iij_dpf_web.Dpf.Rrtype.{eq_rrtype}
use external_dns_iij_dpf_web.Dpf.Skipping.{IsLike-of_unchanged, edit-skips, wire_key_of_raw_key}
use external_dns_iij_dpf_web.Dpf.Wire.{
  MergeKey, WireRecord, eq_merge_key, provider_key, raw_key, wire_key,
}
use external_dns_iij_dpf_web.Errors.{Error, Result, Result-cases, err, is, ok, skip_apply}
use external_dns_iij_dpf_web.Provider.Txt.{TxtCodec}
use external_dns_iij_dpf_web.Provider.Types.{
  ChangeSet, Record, Zone, added_records, is_empty_changes,
}
use external_dns_iij_dpf_web.Telemetry.Metrics.{eq_attributes}
use mathlib.Core.List.{Memᴰ}

module _ {S : Type 0} (d : Dns) (t : TxtCodec) (a : ZoneApplier S)
    (published : Text → S → List WireRecord) where
  -- The applier runs the client's edit on what is published. What the edit returns is published if
  -- the
  -- apply succeeds; an edit that asks to skip leaves what is published; and an edit that fails
  -- otherwise makes the apply fail. The SOA and the NS records of a zone's apex, whose submitted
  -- values DPF does not take, are copied by the edit, so that nothing is lost to that.
  pub record ApplierLaws : Type 0 where
    pub submits :
        (id : Text) (cs : ChangeSet) (s : S) (set : List WireRecord)
        → edit d t cs (published id s) ≡ ok set
        → (a.run id (edit d t cs) s).result ≡ ok tt
        → published id (a.run id (edit d t cs) s).state ≡ set
    pub skips :
        (id : Text) (cs : ChangeSet) (s : S) (f : Error)
        → edit d t cs (published id s) ≡ err f
        → is skip_apply f ≡ true
        → published id (a.run id (edit d t cs) s).state ≡ published id s
    pub refuses :
        (id : Text) (cs : ChangeSet) (s : S) (f : Error)
        → edit d t cs (published id s) ≡ err f
        → is skip_apply f ≡ false
        → (a.run id (edit d t cs) s).result ≢ ok tt

pub wire_key-marked :
    (d : Dns) (cs : ChangeSet) (v : WireRecord) → wire_key d (marked cs v) ≡ wire_key d v
wire_key-marked d cs v = wire_key_of_raw_key d (marked cs v) v (raw_key-marked cs v)

raw_key-kept : (r : WireRecord) → raw_key (non_nil_labels r) ≡ raw_key r
raw_key-kept r = elim (Option-cases r.labels) [ inl n ↦ rw n refl | inr (x, e) ↦ rw e refl ]

marked-untouched :
    (cs : ChangeSet) (r : WireRecord)
    → any (has_merge_key (raw_key r)) (added_records cs) ≡ false
    → marked cs (non_nil_labels r) ≡ non_nil_labels r
marked-untouched cs r h = rw (raw_key-kept r, h) refl

module _ {S : Type 0} (d : Dns) (t : TxtCodec) (a : ZoneApplier S)
    (published : Text → S → List WireRecord) (laws : ApplierLaws d t a published) where
  -- A successful apply of changes has run the edit.
  pub ran :
      (zone : Zone) (cs : ChangeSet) (s s' : S)
      → is_empty_changes cs ≡ false
      → apply d t a zone cs s ≡ (ok tt, s')
      → ((a.run zone.id (edit d t cs) s).result ≡ ok tt)
        × ((a.run zone.id (edit d t cs) s).state ≡ s')
  unfolding apply
  ran zone cs s s' n h = (
    succeeded o.result (ap (λ (p : Result (Unit {0}) × S). p.0) answer),
    ap (λ (p : Result (Unit {0}) × S). p.1) answer,
  )
    where
      o : Outcome S
      o = a.run zone.id (edit d t cs) s

      failing : Error → Result (Unit {0})
      failing e = err (apply_error (wait_steps new_lock_wait o.events) e)

      replied : Result (Unit {0}) → Result (Unit {0})
      replied (ok u) = ok tt
      replied (err e) = failing e

      answer : ◌≡◌ {A = Result (Unit {0}) × S} (replied o.result, o.state) (ok tt, s')
      answer = rw n at h

      succeeded : (r : Result (Unit {0})) → replied r ≡ ok tt → r ≡ ok tt
      succeeded (ok u) e = refl
      succeeded (err f) e = cc e

  -- Behind a successful apply the zone publishes what it did or the marked set of the merge.
  pub behind :
      (zone : Zone) (cs : ChangeSet) (s s' : S)
      → apply d t a zone cs s ≡ (ok tt, s')
      → (published zone.id s' ≡ published zone.id s)
        ⊎ ((out : List WireRecord) × (merge d t (published zone.id s) cs ≡ ok out)
            × (published zone.id s' ≡ map (marked cs) out))
  unfolding apply
  behind zone cs s s' h = elim (Bool-cases (is_empty_changes cs)) [
    | inl y ↦
        let same : ◌≡◌ {A = Result (Unit {0}) × S} (ok tt, s) (ok tt, s') = rw y at h in
        inl (ap (λ (p : Result (Unit {0}) × S). published zone.id p.1) (sym same))
    | inr n ↦
        let (done, state) = ran zone cs s s' n h in
        let now = ap (λ (x : S). published zone.id x) (sym state) in
        elim (Result-cases (edit d t cs (published zone.id s))) [
          | inl (set, e) ↦
              let (out, merges, marks, passed, changed) =
                edit-submits d t cs (published zone.id s) set e in
              inr (out, merges, now ∙ laws.submits zone.id cs s set e done ∙ marks)
          | inr (f, e) ↦ elim (Bool-cases (is skip_apply f)) [
            | inl y ↦ inl (now ∙ laws.skips zone.id cs s f e y)
            | inr m ↦ absurd (laws.refuses zone.id cs s f e m done)
          ]
        ]
  ]

  -- Behind a successful apply, a record of the zone whose name is in canonical form and which the
  -- change set neither deletes, creates nor updates is published as it was, but for a nil label
  -- map, which may have become an empty one; the records of the zone have distinct keys, and the
  -- applier does what is documented of it.
  pub apply-untouched :
      (zone : Zone) (cs : ChangeSet) (s s' : S) (r : WireRecord)
      → apply d t a zone cs s ≡ (ok tt, s')
      → NoRepeats d (published zone.id s)
      → Memᴰ r (published zone.id s)
      → IsExact d r
      → IsUntouched d t cs (wire_key d r)
      → Memᴰ r (published zone.id s') ⊎ Memᴰ (non_nil_labels r) (published zone.id s')
  apply-untouched zone cs s s' r h distinct m exact u = elim (behind zone cs s s' h) [
    | inl same ↦ inl (subst (λ (l : List WireRecord). Memᴰ r l) (sym same) m)
    | inr (out, merges, marks) ↦
        let kept : Memᴰ (non_nil_labels r) out =
          merge-untouched d t (published zone.id s) cs out r merges distinct m u in
        let unmarked : marked cs (non_nil_labels r) ≡ non_nil_labels r =
          marked-untouched cs r
            (ap (λ (k : MergeKey). any (has_merge_key k) (added_records cs)) exact ∙ u.1) in
        inr (
          subst (λ (l : List WireRecord). Memᴰ (non_nil_labels r) l) (sym marks)
            (subst (λ (x : WireRecord). Memᴰ x (map (marked cs) out)) unmarked
              (mem-map (marked cs) out kept)))
  ]

  -- Behind a successful apply of changes, a record that the change set creates or updates, and that
  -- no later one of it overwrites, is published under its name and type, with its TTL and its
  -- values; its name is in the form that `Parse` gives, and the applier does what is documented of
  -- it.
  pub apply-added :
      (zone : Zone) (cs : ChangeSet) (s s' : S) (r : Record) (before after : List Record)
      (k : MergeKey)
      → apply d t a zone cs s ≡ (ok tt, s')
      → is_empty_changes cs ≡ false
      → added_records cs ≡ before ++ r ∷ after
      → IsParsed d r
      → provider_key r ≡ ok k
      → any (has_merge_key k) after ≡ false
      → (v : WireRecord) × Memᴰ v (published zone.id s') × (wire_key d v ≡ k) × HasValues t r v
  apply-added zone cs s s' r before after k h n split p e last =
      let (done, state) = ran zone cs s s' n h in
      let current = published zone.id s in
      let now = ap (λ (x : S). published zone.id x) (sym state) in
      elim (Result-cases (edit d t cs current)) [
        | inl (set, x) ↦
            let (out, merges, marks, passed, changed) = edit-submits d t cs current set x in
            let (v, m, left, values) =
              merge-added d t current cs out r before after k merges split e last in
            (
              marked cs v,
              subst (λ (l : List WireRecord). Memᴰ (marked cs v) l)
                  (sym (now ∙ laws.submits zone.id cs s set x done ∙ marks))
                  (mem-map (marked cs) out m),
              wire_key-marked d cs v ∙ wire_key_of_added d t r k current cs v p e left,
              marked-HasValues cs r v values,
            )
        | inr (f, x) ↦ elim (Bool-cases (is skip_apply f)) [
          | inr q ↦ absurd (laws.refuses zone.id cs s f x q done)
          | inl y ↦
              let (out, merges, same) = edit-skips d t cs current f x y in
              let (v, m, left, values) =
                merge-added d t current cs out r before after k merges split e last in
              let (u, l, like) =
                IsLike-of_unchanged current (map (marked cs) out) (marked cs v)
                  (ap (λ (ws : List WireRecord). unchanged current ws)
                      (sym (apply_managed_by-eq-map out cs))
                    ∙ same)
                  (mem-map (marked cs) out m) in
              let held = marked-HasValues cs r v values in
              (
                u,
                subst (λ (ws : List WireRecord). Memᴰ u ws)
                    (sym (now ∙ laws.skips zone.id cs s f x y)) l,
                wire_key_of_raw_key d u (marked cs v) like.0
                    ∙ wire_key-marked d cs v
                    ∙ wire_key_of_added d t r k current cs v p e left,
                (like.1 ∙ held.0, like.2 ∙ held.1),
              )
        ]
      ]
    where
      marked-HasValues :
          (cs : ChangeSet) (r : Record) (v : WireRecord)
          → HasValues t r v
          → HasValues t r (marked cs v)
      marked-HasValues cs r v w =
          elim (Bool-cases (any (has_merge_key (raw_key v)) (added_records cs))) [
            | inl y ↦ rw y w
            | inr n ↦ rw n w
          ]
