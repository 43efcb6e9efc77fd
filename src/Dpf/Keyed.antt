-- ===== src/Dpf/Keyed.antt =====
-- Lemmas on the keys of the records that `merge` of internal/dpf/merge.go returns.
use external_dns_iij_dpf_web.Base.{
  All, Bool, Bool-cases, List, Option, Option-cases, [], any, any_of_none, ap, eq_list, eq_ℕ, false,
  if◌then◌else◌, inl, inr, none, refl, some, subst, sym, true, ◌==◌, ◌↔◌, ◌∙◌, ◌∷◌, ◌≡◌,
}
use external_dns_iij_dpf_web.Base.Int.{eq_ℤ, ℤ}
use external_dns_iij_dpf_web.Base.Text.{Text}
use external_dns_iij_dpf_web.Dnsname.Name.{Dns, eq_name, parse}
use external_dns_iij_dpf_web.Dpf.Content.{has_merge_key, last_current, updated, values_of}
use external_dns_iij_dpf_web.Dpf.Membership.{mem-merge_iff, merged}
use external_dns_iij_dpf_web.Dpf.Merge.{fresh_record, merge, non_nil_labels, or_fresh, overwritten}
use external_dns_iij_dpf_web.Dpf.Preserved.{mem_of_last_current, updated-untouched}
use external_dns_iij_dpf_web.Dpf.Rrtype.{eq_rrtype, to_dpf}
use external_dns_iij_dpf_web.Dpf.Wire.{
  MergeKey, WireRecord, eq_merge_key, key_of, merge_key_eq_iff, provider_key, wire_key,
}
use external_dns_iij_dpf_web.Errors.{>>=-eq-ok, Result-cases, ok, ok-injective}
use external_dns_iij_dpf_web.Provider.Txt.{TxtCodec}
use external_dns_iij_dpf_web.Provider.Types.{ChangeSet, Record, added_records}
use external_dns_iij_dpf_web.Telemetry.Metrics.{eq_attributes}
use mathlib.Core.List.{Memᴰ}

module _ (d : Dns) where
  wire_key-non_nil_labels : (r : WireRecord) → wire_key d (non_nil_labels r) ≡ wire_key d r
  unfolding wire_key
  wire_key-non_nil_labels r = elim (Option-cases r.labels) [
    | inl n ↦ rw n refl
    | inr (x, e) ↦ rw e refl
  ]

  wire_key-overwritten :
      (b : WireRecord) (ttl : ℤ) (vs : List Text) → wire_key d (overwritten b ttl vs) ≡ wire_key d b
  unfolding wire_key
  wire_key-overwritten b ttl vs = refl

  -- The name of the record parses to itself, as the names that `Parse` makes do.
  abbrev pub IsParsed : Record → Type 0
  IsParsed r = parse d r.name.canonical ≡ ok r.name

  wire_key-fresh_record :
      (r : Record) (k : MergeKey)
      → IsParsed r
      → provider_key r ≡ ok k
      → wire_key d (fresh_record k) ≡ k
  unfolding provider_key wire_key
  wire_key-fresh_record r k p e =
      let (rr, x, y) =
        >>=-eq-ok (to_dpf r.rtype) (λ rr. ok (record { name = r.name.canonical; rrtype = rr })) e in
      subst (λ (j : MergeKey). wire_key d (fresh_record j) ≡ j) (ok-injective y)
        (rw (wire_key, key_of, p) refl)

  abbrev HasKey : MergeKey → Option WireRecord → Type 0
  HasKey k none = Unit
  HasKey k (some v) = wire_key d v ≡ k

  last_current-HasKey : (k : MergeKey) (rs : List WireRecord) → HasKey k (last_current d k rs)
  last_current-HasKey k rs = go (last_current d k rs) refl
    where
      go : (o : Option WireRecord) → last_current d k rs ≡ o → HasKey k o
      go none e = tt
      go (some v) e =
          let (r, m, x, y) = mem_of_last_current d k v rs e in
          ap (λ (w : WireRecord). wire_key d w) x ∙ wire_key-non_nil_labels r ∙ y

  or_fresh-HasKey :
      (r : Record) (k : MergeKey) (o : Option WireRecord)
      → IsParsed r
      → has_merge_key k r ≡ true
      → HasKey k o
      → wire_key d (or_fresh k o) ≡ k
  or_fresh-HasKey r k (some b) p y h = h
  or_fresh-HasKey r k none p y h = elim (Result-cases (provider_key r)) [
    | inl (j, e) ↦
        wire_key-fresh_record r k p
          (e ∙ ap (λ (x : MergeKey). ok x) ((merge_key_eq_iff j k).0 (rw (e, has_merge_key) at y)))
    | inr (c, e) ↦ cc (rw (e, has_merge_key) at y)
  ]

  updated-HasKey :
      (t : TxtCodec) (k : MergeKey) (rs : List Record) (o : Option WireRecord)
      → All IsParsed rs
      → HasKey k o
      → HasKey k (updated t k rs o)
  updated-HasKey t k [] o p h = h
  updated-HasKey t k (r ∷ rs) o p h = elim (Bool-cases (has_merge_key k r)) [
    | inl y ↦ rw y (
        updated-HasKey t k rs (some (overwritten (or_fresh k o) r.ttl (values_of t r))) p.1 (
          wire_key-overwritten (or_fresh k o) r.ttl (values_of t r)
          ∙ or_fresh-HasKey r k o p.0 y h))
    | inr n ↦ rw n (updated-HasKey t k rs o p.1 h)
  ]

  if-HasKey :
      (k : MergeKey) (b : Bool) (o : Option WireRecord)
      → HasKey k o
      → HasKey k (if b then none else o)
  if-HasKey k true o h = tt
  if-HasKey k false o h = h

  pub wire_key_of_merged :
      (t : TxtCodec) (k : MergeKey) (current : List WireRecord) (cs : ChangeSet) (v : WireRecord)
      → All IsParsed (added_records cs)
      → merged d t k current cs ≡ some v
      → wire_key d v ≡ k
  wire_key_of_merged t k current cs v p e = subst (HasKey k) e (
      updated-HasKey t k (added_records cs) _ p (
        if-HasKey k (any (has_merge_key k) cs.remove) (last_current d k current)
          (last_current-HasKey k current)))

  updated-known :
      (t : TxtCodec) (k : MergeKey) (rs : List Record) (o : Option WireRecord)
      → wire_key d (fresh_record k) ≡ k
      → HasKey k o
      → HasKey k (updated t k rs o)
  updated-known t k [] o f h = h
  updated-known t k (r ∷ rs) o f h = elim (Bool-cases (has_merge_key k r)) [
    | inl y ↦ rw y (
        updated-known t k rs (some (overwritten (or_fresh k o) r.ttl (values_of t r))) f
          (wire_key-overwritten (or_fresh k o) r.ttl (values_of t r) ∙ known o h))
    | inr n ↦ rw n (updated-known t k rs o f h)
  ]
    where
      known : (o : Option WireRecord) → HasKey k o → wire_key d (or_fresh k o) ≡ k
      known none h = f
      known (some b) h = h

  -- What is left under the key of a record whose name parses to itself has that key.
  pub wire_key_of_added :
      (t : TxtCodec) (r : Record) (k : MergeKey) (current : List WireRecord) (cs : ChangeSet)
      (v : WireRecord)
      → IsParsed r
      → provider_key r ≡ ok k
      → merged d t k current cs ≡ some v
      → wire_key d v ≡ k
  wire_key_of_added t r k current cs v p e x = subst (HasKey k) x (
      updated-known t k (added_records cs) _ (wire_key-fresh_record r k p e) (
        if-HasKey k (any (has_merge_key k) cs.remove) (last_current d k current)
          (last_current-HasKey k current)))

  -- If a merge succeeds, its set is what the specification leaves: a record is in it exactly if it
  -- is what is left under its own key. The names that the change set adds are in the form that
  -- `Parse` gives.
  pub mem-merge-own_key :
      (t : TxtCodec) (current : List WireRecord) (cs : ChangeSet) (out : List WireRecord)
      → merge d t current cs ≡ ok out
      → All IsParsed (added_records cs)
      → (v : WireRecord) → Memᴰ v out ↔ (merged d t (wire_key d v) current cs ≡ some v)
  mem-merge-own_key t current cs out h p v = (
    λ m.
        let (k, e) = (mem-merge_iff d t current cs out v h).0 m in
        subst (λ (j : MergeKey). merged d t j current cs ≡ some v)
          (sym (wire_key_of_merged t k current cs v p e)) e,
    (mem-merge_iff d t current cs out v h).1 (wire_key d v),
  )

  -- If a merge succeeds, no record of its set has a name and type that the change set deletes and
  -- neither creates nor updates. The names that the change set adds are in the form that `Parse`
  -- gives.
  pub merge-deleted :
      (t : TxtCodec) (current : List WireRecord) (cs : ChangeSet) (out : List WireRecord)
      → merge d t current cs ≡ ok out
      → All IsParsed (added_records cs)
      → (k : MergeKey) → any (has_merge_key k) cs.remove ≡ true
      → any (has_merge_key k) (added_records cs) ≡ false
      → any (λ v. wire_key d v == k) out ≡ false
  merge-deleted t current cs out h p k gone fresh =
      any_of_none (λ v. wire_key d v == k) out
        (λ v m. elim (Bool-cases (wire_key d v == k)) [
          | inr n ↦ n
          | inl y ↦
              let left : merged d t k current cs ≡ some v =
                subst (λ (j : MergeKey). merged d t j current cs ≡ some v)
                  ((merge_key_eq_iff (wire_key d v) k).0 y)
                  ((mem-merge-own_key t current cs out h p v).0 m) in
              let empty : merged d t k current cs ≡ none =
                updated-untouched t k (added_records cs) _ fresh ∙ rw gone refl in
              cc (left, empty)
        ])
