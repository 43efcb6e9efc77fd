-- ===== src/Dpf/Preserved.antt =====
-- Lemmas on `merge` of internal/dpf/merge.go: what becomes of the records of the zone and of
-- those of the change set.
use external_dns_iij_dpf_web.Base.{
  ==_refl, All, Bool-cases, List, Option, [], any, ap, eq_list, eq_ℕ, false, if◌then◌else◌, inl,
  inr, none, refl, some, some_inj, subst, sym, true, ◌++◌, ◌==◌, ◌∙◌, ◌∷◌, ◌≡◌, ◌⊎◌,
}
use external_dns_iij_dpf_web.Base.Int.{eq_ℤ}
use external_dns_iij_dpf_web.Dnsname.Name.{Dns, eq_name}
use external_dns_iij_dpf_web.Dpf.Content.{has_merge_key, last_current, updated, values_of}
use external_dns_iij_dpf_web.Dpf.Membership.{mem-merge_iff, merged}
use external_dns_iij_dpf_web.Dpf.Merge.{merge, non_nil_labels, or_fresh, overwritten}
use external_dns_iij_dpf_web.Dpf.Rrtype.{eq_rrtype}
use external_dns_iij_dpf_web.Dpf.Wire.{
  MergeKey, WireRecord, eq_merge_key, merge_key_eq_iff, provider_key, to_rdata, to_ttl, wire_key,
}
use external_dns_iij_dpf_web.Errors.{ok}
use external_dns_iij_dpf_web.Provider.Txt.{TxtCodec}
use external_dns_iij_dpf_web.Provider.Types.{ChangeSet, Record, added_records}
use external_dns_iij_dpf_web.Telemetry.Metrics.{eq_attributes}
use mathlib.Core.List.{Memᴰ}

module _ (t : TxtCodec) where
  pub updated-untouched :
      (k : MergeKey) (rs : List Record) (o : Option WireRecord)
      → any (has_merge_key k) rs ≡ false
      → updated t k rs o ≡ o
  updated-untouched k [] o h = refl
  updated-untouched k (r ∷ rs) o h = elim (Bool-cases (has_merge_key k r)) [
    | inl y ↦ cc (rw y at h)
    | inr n ↦ rw n (updated-untouched k rs o (rw n at h))
  ]

  updated-append :
      (k : MergeKey) (xs ys : List Record) (o : Option WireRecord)
      → updated t k (xs ++ ys) o ≡ updated t k ys (updated t k xs o)
  updated-append k [] ys o = refl
  updated-append k (r ∷ xs) ys o = updated-append k xs ys _

  -- `v` has the values that `r` asks for.
  abbrev pub HasValues : Record → WireRecord → Type 0
  HasValues r v = (v.ttl ≡ to_ttl r.ttl) × (v.rdata ≡ to_rdata (values_of t r))

  HasValues-overwritten :
      (r : Record) (b v : WireRecord)
      → some (overwritten b r.ttl (values_of t r)) ≡ some v
      → HasValues r v
  HasValues-overwritten r b v e = (
    ap (λ (x : WireRecord). x.ttl) (sym (some_inj e)),
    ap (λ (x : WireRecord). x.rdata) (sym (some_inj e)),
  )

  pub updated-cases :
      (k : MergeKey) (rs : List Record) (o : Option WireRecord) (v : WireRecord)
      → updated t k rs o ≡ some v
      → (o ≡ some v) ⊎ ((r : Record) × Memᴰ r rs × (has_merge_key k r ≡ true) × HasValues r v)
  updated-cases k [] o v e = inl e
  updated-cases k (r ∷ rs) o v e = elim (Bool-cases (has_merge_key k r)) [
    | inl y ↦
        elim (updated-cases k rs (some (overwritten (or_fresh k o) r.ttl (values_of t r))) v
          (rw y at e)) [
            | inl p ↦ inr (r, Memᴰ.head refl, y, HasValues-overwritten r (or_fresh k o) v p)
            | inr (q, m, z, w) ↦ inr (q, Memᴰ.tail m, z, w)
          ]
    | inr n ↦ elim (updated-cases k rs o v (rw n at e)) [
      | inl p ↦ inl p
      | inr (q, m, z, w) ↦ inr (q, Memᴰ.tail m, z, w)
    ]
  ]

module _ (d : Dns) where
  last_current-none :
      (k : MergeKey) (rs : List WireRecord)
      → All (λ q. (wire_key d q == k) ≡ false) rs
      → last_current d k rs ≡ none
  last_current-none k [] h = refl
  last_current-none k (r ∷ rs) h = rw (last_current-none k rs h.1, h.0)

  -- No two records of a zone have one key.
  abbrev pub NoRepeats : List WireRecord → Type 0
  NoRepeats [] = Unit
  NoRepeats (r ∷ rs) = All (λ q. (wire_key d q == wire_key d r) ≡ false) rs × NoRepeats rs

  pub last_current_of_mem :
      (r : WireRecord) (rs : List WireRecord)
      → NoRepeats rs
      → Memᴰ r rs
      → last_current d (wire_key d r) rs ≡ some (non_nil_labels r)
  last_current_of_mem r [] h m = elim m [ ]
  last_current_of_mem r (q ∷ rs) h (Memᴰ.head e) =
      subst (λ (x : WireRecord). last_current d (wire_key d x) (q ∷ rs) ≡ some (non_nil_labels x))
        (sym e) (rw (last_current-none (wire_key d q) rs h.0, ==_refl (wire_key d q)))
  last_current_of_mem r (q ∷ rs) h (Memᴰ.tail m) = rw (last_current_of_mem r rs h.1 m)

  pub mem_of_last_current :
      (k : MergeKey) (v : WireRecord) (rs : List WireRecord)
      → last_current d k rs ≡ some v
      → (r : WireRecord) × Memᴰ r rs × (v ≡ non_nil_labels r) × (wire_key d r ≡ k)
  mem_of_last_current k v [] e = cc
  mem_of_last_current k v (q ∷ rs) e = go (last_current d k rs) refl (mem_of_last_current k v rs)
    where
      go :
          (o : Option WireRecord)
          → last_current d k rs ≡ o
          → (last_current d k rs ≡ some v
              → (r : WireRecord) × Memᴰ r rs × (v ≡ non_nil_labels r) × (wire_key d r ≡ k))
          → (r : WireRecord) × Memᴰ r (q ∷ rs) × (v ≡ non_nil_labels r) × (wire_key d r ≡ k)
      go (some x) p ih = let (r, m, a, b) = ih (p ∙ (rw p at e)) in (r, Memᴰ.tail m, a, b)
      go none p ih = elim (Bool-cases (wire_key d q == k)) [
        | inl y ↦ (
          q,
          Memᴰ.head refl,
          sym (some_inj (rw (p, y) at e)),
          (merge_key_eq_iff (wire_key d q) k).0 y,
        )
        | inr n ↦ cc (rw (p, n) at e)
      ]

module _ (d : Dns) (t : TxtCodec) where
  -- The change set does not delete the key, and neither creates nor updates a record under it.
  abbrev pub IsUntouched : ChangeSet → MergeKey → Type 0
  IsUntouched cs k =
      (any (has_merge_key k) cs.remove ≡ false) × (any (has_merge_key k) (added_records cs) ≡ false)

  -- If a merge succeeds and the records of the zone have distinct keys, a record of the zone that
  -- the change set does not name is in the merged set as it was read, but for a nil label map,
  -- which becomes an empty one.
  pub merge-untouched :
      (current : List WireRecord) (cs : ChangeSet) (out : List WireRecord) (r : WireRecord)
      → merge d t current cs ≡ ok out
      → NoRepeats d current
      → Memᴰ r current
      → IsUntouched cs (wire_key d r)
      → Memᴰ (non_nil_labels r) out
  merge-untouched current cs out r h distinct m u =
      (mem-merge_iff d t current cs out (non_nil_labels r) h).1 (wire_key d r) (
        updated-untouched t (wire_key d r) (added_records cs) _ u.1
        ∙ rw (u.0) (last_current_of_mem d r current distinct m))

  -- If a merge succeeds, every record of the merged set is a record of the zone as it was read,
  -- whose key the change set does not delete, or has the TTL and the values of a record that the
  -- change set creates or updates.
  merge_origin :
      (current : List WireRecord) (cs : ChangeSet) (out : List WireRecord) (v : WireRecord)
      → merge d t current cs ≡ ok out
      → Memᴰ v out
      → ((r : WireRecord) × Memᴰ r current
          × (v ≡ non_nil_labels r)
          × (any (has_merge_key (wire_key d r)) cs.remove ≡ false))
        ⊎ ((r : Record) × Memᴰ r (added_records cs) × HasValues t r v)
  merge_origin current cs out v h m =
      let (k, e) = (mem-merge_iff d t current cs out v h).0 m in
      elim (updated-cases t k (added_records cs) _ v e) [
        | inr (r, n, y, w) ↦ inr (r, n, w)
        | inl p ↦ elim (Bool-cases (any (has_merge_key k) cs.remove)) [
          | inl y ↦ cc (rw y at p)
          | inr n ↦
              let (r, q, a, b) = mem_of_last_current d k v current (rw n at p) in
              inl (r, q, a, rw b n)
        ]
      ]

  -- If a merge succeeds, a record that the change set creates or updates, and that no later one of
  -- it overwrites, is in the merged set, left under its key, with its TTL and its values.
  pub merge-added :
      (current : List WireRecord) (cs : ChangeSet) (out : List WireRecord) (r : Record)
      (before after : List Record) (k : MergeKey)
      → merge d t current cs ≡ ok out
      → added_records cs ≡ before ++ r ∷ after
      → provider_key r ≡ ok k
      → any (has_merge_key k) after ≡ false
      → (v : WireRecord) × Memᴰ v out × (merged d t k current cs ≡ some v) × HasValues t r v
  merge-added current cs out r before after k h split e last =
      let start : Option WireRecord =
        (if any (has_merge_key k) cs.remove then none else last_current d k current) in
      let old : WireRecord = or_fresh k (updated t k before start) in
      let new : WireRecord = overwritten old r.ttl (values_of t r) in
      let held : has_merge_key k r ≡ true = rw (e, has_merge_key) (==_refl k) in
      let left : merged d t k current cs ≡ some new =
        ap (λ (l : List Record). updated t k l start) split
        ∙ updated-append t k before (r ∷ after) start
        ∙ rw held (updated-untouched t k after (some new) last) in
      (new, (mem-merge_iff d t current cs out new h).1 k left, left, (refl, refl))
