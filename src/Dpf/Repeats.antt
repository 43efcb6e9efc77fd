-- ===== src/Dpf/Repeats.antt =====
-- Lemmas on `merge` of internal/dpf/merge.go: how often a key comes in the set.
use external_dns_iij_dpf_web.Base.{
  All, All-mem, All-of_mem, List, Option, Option-cases, [], any, eq_list, eq_ℕ, false, inl, inr,
  keep_some, lookup, map, mem_of_keep_some, mem_of_map, refl, some, subst, sym, ◌==◌, ◌∙◌, ◌∷◌, ◌≡◌,
}
use external_dns_iij_dpf_web.Base.Int.{eq_ℤ}
use external_dns_iij_dpf_web.Base.Text.{Text}
use external_dns_iij_dpf_web.Dnsname.Name.{Dns, eq_name}
use external_dns_iij_dpf_web.Dpf.Apply.{ZoneApplier, apply}
use external_dns_iij_dpf_web.Dpf.Content.{has_merge_key}
use external_dns_iij_dpf_web.Dpf.Keyed.{IsParsed, wire_key_of_merged}
use external_dns_iij_dpf_web.Dpf.Labelled.{marked}
use external_dns_iij_dpf_web.Dpf.Membership.{lookup-merge_state}
use external_dns_iij_dpf_web.Dpf.Merge.{
  collect, drop_all, empty_state, merge, merge_state, put_all, put_all_current,
}
use external_dns_iij_dpf_web.Dpf.Ordered.{
  Distinct, IsOrdered, IsOrdered-drop_all, IsOrdered-put_all, IsOrdered-put_all_current,
}
use external_dns_iij_dpf_web.Dpf.Preserved.{NoRepeats}
use external_dns_iij_dpf_web.Dpf.Published.{ApplierLaws, behind, wire_key-marked}
use external_dns_iij_dpf_web.Dpf.Rrtype.{eq_rrtype}
use external_dns_iij_dpf_web.Dpf.Wire.{MergeKey, WireRecord, eq_merge_key, provider_key, wire_key}
use external_dns_iij_dpf_web.Errors.{>>=-eq-ok, ok, ok-injective}
use external_dns_iij_dpf_web.Provider.Txt.{TxtCodec}
use external_dns_iij_dpf_web.Provider.Types.{ChangeSet, Record, Zone, added_records}
use external_dns_iij_dpf_web.Telemetry.Metrics.{eq_attributes}
use mathlib.Core.List.{Memᴰ}

-- No key is both deleted and added.
abbrev pub IsApart : ChangeSet → Type 0
IsApart cs =
    (r : Record)
    → Memᴰ r (added_records cs)
    → (k : MergeKey) → provider_key r ≡ ok k
    → any (has_merge_key k) cs.remove ≡ false

module _ (d : Dns) where
  keep_some-NoRepeats :
      (f : MergeKey → Option WireRecord) (ks : List MergeKey)
      → ((k : MergeKey) (v : WireRecord) → f k ≡ some v → wire_key d v ≡ k)
      → Distinct ks
      → NoRepeats d (keep_some f ks)
  keep_some-NoRepeats f [] own h = tt
  keep_some-NoRepeats f (k ∷ ks) own h = elim (Option-cases (f k)) [
    | inl n ↦ rw n (keep_some-NoRepeats f ks own h.1)
    | inr (v, e) ↦ rw e (
      All-of_mem (λ q. (wire_key d q == wire_key d v) ≡ false) (keep_some f ks)
          (λ q m.
            let (j, i, x) = mem_of_keep_some f ks m in
            rw (own j q x, own k v e) (All-mem (λ j. (j == k) ≡ false) h.0 i)),
      keep_some-NoRepeats f ks own h.1,
    )
  ]

  -- If a merge succeeds, no two records of its set have one key, whatever the zone publishes; the
  -- names that the change set adds are in the form that `Parse` gives, and it does not delete what
  -- it creates or updates.
  pub merge-NoRepeats :
      (t : TxtCodec) (current : List WireRecord) (cs : ChangeSet) (out : List WireRecord)
      → merge d t current cs ≡ ok out
      → All (IsParsed d) (added_records cs)
      → IsApart cs
      → NoRepeats d out
  unfolding merge collect
  merge-NoRepeats t current cs out h p apart =
      let start = put_all_current d empty_state current in
      let (s, e, f) = >>=-eq-ok (merge_state d t current cs) (λ s. ok (collect s)) h in
      let (s₁, e₁, e₂) =
        >>=-eq-ok (drop_all start cs.remove) (λ s. put_all t s (added_records cs))
          (unfold merge_state in e) in
      let ordered : IsOrdered (λ k. any (has_merge_key k) cs.remove) s =
        IsOrdered-put_all t (λ k. any (has_merge_key k) cs.remove) s₁ (added_records cs) e₂ apart
          (IsOrdered-drop_all start cs.remove e₁ (
            IsOrdered-put_all_current d (λ k. false) empty_state current (λ k. refl)
              (tt, λ k m. elim m [ ]))) in
      subst (NoRepeats d) (ok-injective f) (
        keep_some-NoRepeats (λ k. lookup k s.set) s.order
          (λ k v x.
            wire_key_of_merged d t k current cs v p
              (sym (lookup-merge_state d t current cs e k) ∙ x))
          ordered.0)

marked-NoRepeats :
    (d : Dns) (cs : ChangeSet) (vs : List WireRecord)
    → NoRepeats d vs
    → NoRepeats d (map (marked cs) vs)
marked-NoRepeats d cs [] h = tt
marked-NoRepeats d cs (v ∷ vs) h = (
  All-of_mem (λ q. (wire_key d q == wire_key d (marked cs v)) ≡ false) (map (marked cs) vs)
      (λ q m.
        let (u, i, e) = mem_of_map (marked cs) vs m in
        rw (e, wire_key-marked d cs u, wire_key-marked d cs v)
          (All-mem (λ u. (wire_key d u == wire_key d v) ≡ false) h.0 i)),
  marked-NoRepeats d cs vs h.1,
)

module _ {S : Type 0} (d : Dns) (t : TxtCodec) (a : ZoneApplier S)
    (published : Text → S → List WireRecord) (laws : ApplierLaws d t a published) where
  -- A successful apply leaves a zone without two records of one key, if it was without.
  pub apply-NoRepeats :
      (zone : Zone) (cs : ChangeSet) (s s' : S)
      → apply d t a zone cs s ≡ (ok tt, s')
      → All (IsParsed d) (added_records cs)
      → IsApart cs
      → NoRepeats d (published zone.id s)
      → NoRepeats d (published zone.id s')
  apply-NoRepeats zone cs s s' h p apart distinct =
      elim (behind d t a published laws zone cs s s' h) [
        | inl same ↦ subst (NoRepeats d) (sym same) distinct
        | inr (out, merges, marks) ↦ subst (NoRepeats d) (sym marks) (
            marked-NoRepeats d cs out
              (merge-NoRepeats d t (published zone.id s) cs out merges p apart))
      ]
