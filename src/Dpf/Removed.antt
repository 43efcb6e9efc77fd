-- ===== src/Dpf/Removed.antt =====
-- Lemmas on what `Client.Apply` of internal/dpf deletes.
use external_dns_iij_dpf_web.Base.{
  All, Bool, Bool-cases, List, [], any, ap, arith, eq_list, eq_ℕ, false, inl, inr, map, refl, sym,
  true, ◌==◌, ◌||◌, ◌∙◌, ◌∷◌, ◌≡◌,
}
use external_dns_iij_dpf_web.Base.Int.{eq_ℤ}
use external_dns_iij_dpf_web.Base.Text.{Text}
use external_dns_iij_dpf_web.Dnsname.Name.{Dns, eq_name}
use external_dns_iij_dpf_web.Dpf.Apply.{ZoneApplier, apply, edit}
use external_dns_iij_dpf_web.Dpf.Content.{has_merge_key}
use external_dns_iij_dpf_web.Dpf.Editing.{edit-submits}
use external_dns_iij_dpf_web.Dpf.Guard.{unchanged}
use external_dns_iij_dpf_web.Dpf.Keyed.{IsParsed, merge-deleted}
use external_dns_iij_dpf_web.Dpf.Label.{apply_managed_by}
use external_dns_iij_dpf_web.Dpf.Labelled.{apply_managed_by-eq-map, marked}
use external_dns_iij_dpf_web.Dpf.Published.{ApplierLaws, ran, wire_key-marked}
use external_dns_iij_dpf_web.Dpf.Rrtype.{eq_rrtype}
use external_dns_iij_dpf_web.Dpf.Skipping.{edit-skips, same_record-IsLike, wire_key_of_raw_key}
use external_dns_iij_dpf_web.Dpf.Wire.{MergeKey, WireRecord, eq_merge_key, wire_key}
use external_dns_iij_dpf_web.Errors.{Result-cases, is, ok, skip_apply}
use external_dns_iij_dpf_web.Provider.Txt.{TxtCodec}
use external_dns_iij_dpf_web.Provider.Types.{ChangeSet, Zone, added_records, is_empty_changes}
use external_dns_iij_dpf_web.Telemetry.Metrics.{eq_attributes}
use mathlib.Core.Path.{ap₂}

-- The records of a list have the key.
abbrev has_key : Dns → MergeKey → WireRecord → Bool
has_key d k v = wire_key d v == k

unchanged-any :
    (d : Dns) (k : MergeKey) (xs ys : List WireRecord)
    → unchanged xs ys ≡ true
    → any (has_key d k) xs ≡ any (has_key d k) ys
unfolding unchanged
unchanged-any d k [] [] h = refl
unchanged-any d k [] (y ∷ ys) h = cc h
unchanged-any d k (x ∷ xs) [] h = cc h
unchanged-any d k (x ∷ xs) (y ∷ ys) h =
    ap₂ (λ (a b : Bool). a || b)
      (ap (λ (j : MergeKey). j == k)
        (wire_key_of_raw_key d x y (same_record-IsLike x y (ground arith)).0))
      (unchanged-any d k xs ys (ground arith))

any-marked :
    (d : Dns) (k : MergeKey) (cs : ChangeSet) (xs : List WireRecord)
    → any (has_key d k) (map (marked cs) xs) ≡ any (has_key d k) xs
any-marked d k cs [] = refl
any-marked d k cs (x ∷ xs) =
    ap₂ (λ (a b : Bool). a || b) (ap (λ (j : MergeKey). j == k) (wire_key-marked d cs x))
      (any-marked d k cs xs)

module _ {S : Type 0} (d : Dns) (t : TxtCodec) (a : ZoneApplier S)
    (published : Text → S → List WireRecord) (laws : ApplierLaws d t a published) where
  -- Behind a successful apply, no record is published in the zone with a key that the change set
  -- deletes and neither creates nor updates; the names that it adds are in the form that `Parse`
  -- gives, and the applier does what is documented of it.
  pub apply-removed :
      (zone : Zone) (cs : ChangeSet) (s s' : S) (k : MergeKey)
      → apply d t a zone cs s ≡ (ok tt, s')
      → is_empty_changes cs ≡ false
      → All (IsParsed d) (added_records cs)
      → any (has_merge_key k) cs.remove ≡ true
      → any (has_merge_key k) (added_records cs) ≡ false
      → any (λ v. wire_key d v == k) (published zone.id s') ≡ false
  apply-removed zone cs s s' k h n p gone fresh =
      let (done, state) = ran d t a published laws zone cs s s' n h in
      let current = published zone.id s in
      let now = ap (λ (x : S). published zone.id x) (sym state) in
      elim (Result-cases (edit d t cs current)) [
        | inl (set, x) ↦
            let (out, merges, marks, passed, changed) = edit-submits d t cs current set x in
            ap (λ (vs : List WireRecord). any (has_key d k) vs)
              (now ∙ laws.submits zone.id cs s set x done ∙ marks)
            ∙ any-marked d k cs out
            ∙ merge-deleted d t current cs out merges p k gone fresh
        | inr (f, x) ↦ elim (Bool-cases (is skip_apply f)) [
          | inr q ↦ absurd (laws.refuses zone.id cs s f x q done)
          | inl y ↦
              let (out, merges, same) = edit-skips d t cs current f x y in
              ap (λ (vs : List WireRecord). any (has_key d k) vs)
                (now ∙ laws.skips zone.id cs s f x y)
              ∙ unchanged-any d k current (apply_managed_by out cs) same
              ∙ ap (λ (vs : List WireRecord). any (has_key d k) vs) (apply_managed_by-eq-map out cs)
              ∙ any-marked d k cs out
              ∙ merge-deleted d t current cs out merges p k gone fresh
        ]
      ]
