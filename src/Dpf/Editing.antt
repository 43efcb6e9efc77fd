-- ===== src/Dpf/Editing.antt =====
-- Lemmas on the edit that `Client.Apply` of internal/dpf/apply.go runs on the records of a zone.
use external_dns_iij_dpf_web.Base.{
  All, Bool, List, [], eq_list, eq_ℕ, false, if◌then◌else◌, map, refl, subst, sym, true, ◌∙◌, ◌≡◌,
}
use external_dns_iij_dpf_web.Base.Int.{eq_ℤ}
use external_dns_iij_dpf_web.Dnsname.Name.{Dns, eq_name}
use external_dns_iij_dpf_web.Dpf.Apply.{edit, finish_edit, submit_or_skip}
use external_dns_iij_dpf_web.Dpf.Guard.{guard, unchanged}
use external_dns_iij_dpf_web.Dpf.Guarded.{IsExact, guard-merge}
use external_dns_iij_dpf_web.Dpf.Label.{apply_managed_by}
use external_dns_iij_dpf_web.Dpf.Labelled.{apply_managed_by-eq-map, marked}
use external_dns_iij_dpf_web.Dpf.Merge.{merge}
use external_dns_iij_dpf_web.Dpf.Rrtype.{eq_rrtype}
use external_dns_iij_dpf_web.Dpf.Wire.{WireRecord, eq_merge_key}
use external_dns_iij_dpf_web.Errors.{Result, err, ok, ok-injective, sentinel, skip_apply, ◌>>◌}
use external_dns_iij_dpf_web.Provider.Txt.{TxtCodec}
use external_dns_iij_dpf_web.Provider.Types.{ChangeSet}

module _ (d : Dns) (t : TxtCodec) where
  -- Where the names of a zone are in canonical form, an edit whose merge succeeds is not stopped by
  -- the guard: it skips the submission if the marked set is what is published, and submits the
  -- marked set if it is not.
  pub edit-merge :
      (cs : ChangeSet) (current out : List WireRecord)
      → merge d t current cs ≡ ok out
      → All (IsExact d) current
      → edit d t cs current ≡ (
          if unchanged current (apply_managed_by out cs)
          then err (sentinel skip_apply)
          else ok (apply_managed_by out cs))
  unfolding edit submit_or_skip
  edit-merge cs current out h exact = rw (h, guard-merge d t current cs out h exact)

  -- What the edit submits is the merged set with its marks, and the guard has let it pass; it is
  -- not, record by record, what is published already.
  pub edit-submits :
      (cs : ChangeSet) (current set : List WireRecord)
      → edit d t cs current ≡ ok set
      → (out : List WireRecord) × (merge d t current cs ≡ ok out)
        × (set ≡ map (marked cs) out)
        × (guard d current set cs ≡ ok tt)
        × (unchanged current set ≡ false)
  unfolding edit submit_or_skip
  edit-submits cs current set h = go (merge d t current cs) refl h
    where
      passed :
          (out : List WireRecord) (g : Result (Unit {0})) (b : Bool)
          → guard d current (apply_managed_by out cs) cs ≡ g
          → unchanged current (apply_managed_by out cs) ≡ b
          → (g >> (if b then err (sentinel skip_apply) else ok (apply_managed_by out cs))) ≡ ok set
          → (set ≡ map (marked cs) out)
            × (guard d current set cs ≡ ok tt)
            × (unchanged current set ≡ false)
      passed out (ok u) true p q x = (cc x, cc x, cc x)
      passed out (err e) b p q x = (cc x, cc x, cc x)
      passed out (ok u) false p q x =
          let same : apply_managed_by out cs ≡ set = ok-injective x in
          (
            sym same ∙ apply_managed_by-eq-map out cs,
            subst (λ (l : List WireRecord). guard d current l cs ≡ ok tt) same p,
            subst (λ (l : List WireRecord). unchanged current l ≡ false) same q,
          )

      go :
          (m : Result (List WireRecord))
          → merge d t current cs ≡ m
          → finish_edit d current cs m ≡ ok set
          → (out : List WireRecord) × (merge d t current cs ≡ ok out)
            × (set ≡ map (marked cs) out)
            × (guard d current set cs ≡ ok tt)
            × (unchanged current set ≡ false)
      go (err e) p x = ([], cc x, cc x, cc x, cc x)
      go (ok out) p x =
          let (a, b, c) =
            passed out (guard d current (apply_managed_by out cs) cs)
              (unchanged current (apply_managed_by out cs)) refl refl x in
          (out, p, a, b, c)
