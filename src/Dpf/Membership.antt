-- ===== src/Dpf/Membership.antt =====
-- Lemmas on `merge` of internal/dpf/merge.go: the records of its result, by what is left under
-- each key.
use external_dns_iij_dpf_web.Base.{
  Bool, Bool-cases, List, Option, [], any, ap, eq_list, eq_ℕ, false, if◌then◌else◌, inl, inr,
  insert, lookup, lookup-insert, mem-append_left, mem-append_right, mem-keep_some, mem_of_keep_some,
  none, refl, some, subst, sym, true, ◌==◌, ◌∙◌, ◌∷◌, ◌≡◌,
}
use external_dns_iij_dpf_web.Base.Int.{eq_ℤ}
use external_dns_iij_dpf_web.Dnsname.Name.{Dns, eq_name}
use external_dns_iij_dpf_web.Dpf.Classify.{first}
use external_dns_iij_dpf_web.Dpf.Content.{
  has_merge_key, last_current, lookup-drop_all, lookup-put_all, lookup-put_all_current, updated,
}
use external_dns_iij_dpf_web.Dpf.Merge.{
  MergeState, collect, drop_all, empty_state, merge, merge_state, non_nil_labels, or_fresh,
  order_for, overwritten, put_all, put_all_current, put_current, put_record, put_values,
}
use external_dns_iij_dpf_web.Dpf.Rrtype.{eq_rrtype}
use external_dns_iij_dpf_web.Dpf.Wire.{
  MergeKey, WireRecord, eq_merge_key, merge_key_eq_iff, normalize_values, provider_key, wire_key,
}
use external_dns_iij_dpf_web.Errors.{>>=-eq-ok, ok, ok-injective, ◌>>=◌}
use external_dns_iij_dpf_web.Provider.Txt.{TxtCodec}
use external_dns_iij_dpf_web.Provider.Types.{ChangeSet, Record, added_records}
use external_dns_iij_dpf_web.Telemetry.Metrics.{eq_attributes}
use mathlib.Core.List.{Memᴰ}

-- Every key of the map is in the order.
abbrev pub IsListed : MergeState → Type 0
IsListed s = (k : MergeKey) (v : WireRecord) → lookup k s.set ≡ some v → Memᴰ k s.order

IsListed-insert :
    (s : MergeState) (j : MergeKey) (v : WireRecord)
    → IsListed s
    → IsListed (record { set = insert j v s.set; order = order_for j s })
IsListed-insert s j v h k w e = go (lookup j s.set) refl
  where
    here : (if j == k then some v else lookup k s.set) ≡ some w
    here = sym (lookup-insert j k v s.set) ∙ e

    older : (j == k) ≡ false → Memᴰ k s.order
    older n = h k w (rw n at here)

    go : (o : Option WireRecord) → lookup j s.set ≡ o → Memᴰ k (order_for j s)
    go none x = rw x (elim (Bool-cases (j == k)) [
      | inl y ↦ mem-append_right s.order (Memᴰ.head (sym ((merge_key_eq_iff j k).0 y)))
      | inr n ↦ mem-append_left (j ∷ []) (older n)
    ])
    go (some u) x = rw x (elim (Bool-cases (j == k)) [
      | inl y ↦ h k u (ap (λ (q : MergeKey). lookup q s.set) (sym ((merge_key_eq_iff j k).0 y)) ∙ x)
      | inr n ↦ older n
    ])

module _ (d : Dns) where
  IsListed-put_all_current :
      (s : MergeState) (rs : List WireRecord) → IsListed s → IsListed (put_all_current d s rs)
  unfolding put_all_current put_current
  IsListed-put_all_current s [] h = h
  IsListed-put_all_current s (r ∷ rs) h =
      IsListed-put_all_current (put_current d s r) rs
        (IsListed-insert s (wire_key d r) (non_nil_labels r) h)

IsListed-drop_all :
    (s : MergeState) (rs : List Record) {s' : MergeState}
    → drop_all s rs ≡ ok s'
    → IsListed s
    → IsListed s'
IsListed-drop_all s rs {s'} e h k v x =
    let l = lookup-drop_all k s rs e in
    subst (λ (o : List MergeKey). Memᴰ k o) (sym l.1)
      (h k v (kept (any (has_merge_key k) rs) (lookup k s.set) (sym l.0 ∙ x)))
  where
    kept : (b : Bool) (o : Option WireRecord) → (if b then none else o) ≡ some v → o ≡ some v
    kept true o q = cc
    kept false o q = q

module _ (t : TxtCodec) where
  IsListed-put_record :
      (s : MergeState) (r : Record) {s' : MergeState}
      → put_record t s r ≡ ok s'
      → IsListed s
      → IsListed s'
  unfolding put_record
  IsListed-put_record s r {s'} e h =
      let (j, p, f) =
        >>=-eq-ok (provider_key r) (λ j. normalize_values t r >>= λ vs. ok (put_values s r j vs))
          e in
      let (vs, x, g) = >>=-eq-ok (normalize_values t r) (λ vs. ok (put_values s r j vs)) f in
      subst IsListed (ok-injective g)
        (IsListed-insert s j (overwritten (or_fresh j (lookup j s.set)) r.ttl vs) h)

  IsListed-put_all :
      (s : MergeState) (rs : List Record) {s' : MergeState}
      → put_all t s rs ≡ ok s'
      → IsListed s
      → IsListed s'
  unfolding put_all
  IsListed-put_all s [] e h = subst IsListed (ok-injective e) h
  IsListed-put_all s (r ∷ rs) e h =
      let (s₁, p, f) = >>=-eq-ok (put_record t s r) (λ x. put_all t x rs) e in
      IsListed-put_all s₁ rs f (IsListed-put_record s r p h)

module _ (d : Dns) (t : TxtCodec) where
  -- What a merge leaves under a key: the published record, dropped where the change set deletes
  -- the key, and written over by each record that it creates or updates.
  abbrev pub merged : MergeKey → List WireRecord → ChangeSet → Option WireRecord
  merged k current cs =
      updated t k (added_records cs)
        (if any (has_merge_key k) cs.remove then none else last_current d k current)

  pub lookup-merge_state :
      (current : List WireRecord) (cs : ChangeSet) {s : MergeState}
      → merge_state d t current cs ≡ ok s
      → (k : MergeKey) → lookup k s.set ≡ merged k current cs
  unfolding merge_state
  lookup-merge_state current cs {s} e k =
      let start = put_all_current d empty_state current in
      let (s₁, e₁, e₂) =
        >>=-eq-ok (drop_all start cs.remove) (λ s. put_all t s (added_records cs)) e in
      lookup-put_all t k s₁ (added_records cs) e₂
      ∙ ap (λ (o : Option WireRecord). updated t k (added_records cs) o)
          ((lookup-drop_all k start cs.remove e₁).0
            ∙ ap (λ (o : Option WireRecord). if any (has_merge_key k) cs.remove then none else o)
                (lookup-put_all_current d k empty_state current
                  ∙ first_none (last_current d k current)))
    where
      first_none : (o : Option WireRecord) → first o none ≡ o
      first_none none = refl
      first_none (some x) = refl

  -- The set that `merge` returns holds exactly the records that the specification leaves under
  -- some key: whatever the change set and the published records, if the merge succeeds, a record is
  -- in the set if and only if it is what is left under a key.
  pub mem-merge_iff :
      (current : List WireRecord) (cs : ChangeSet) (out : List WireRecord) (v : WireRecord)
      → merge d t current cs ≡ ok out
      → (Memᴰ v out → (k : MergeKey) × (merged k current cs ≡ some v))
        × ((k : MergeKey) → merged k current cs ≡ some v → Memᴰ v out)
  unfolding merge collect
  mem-merge_iff current cs out v h =
      let start = put_all_current d empty_state current in
      let (s, e, f) = >>=-eq-ok (merge_state d t current cs) (λ s. ok (collect s)) h in
      let (s₁, e₁, e₂) =
        >>=-eq-ok (drop_all start cs.remove) (λ s. put_all t s (added_records cs))
          (unfold merge_state in e) in
      let same : collect s ≡ out = ok-injective f in
      let content = lookup-merge_state current cs e in
      let listed : IsListed s = IsListed-put_all t s₁ (added_records cs) e₂ (
        IsListed-drop_all start cs.remove e₁
          (IsListed-put_all_current d empty_state current (λ k v x. cc x))) in
      (
        λ m.
            let (k, n, x) =
              mem_of_keep_some (λ k. lookup k s.set) s.order
                (subst (λ (l : List WireRecord). Memᴰ v l) (sym same) m) in
            (k, sym (content k) ∙ x),
        λ k x.
            subst (λ (l : List WireRecord). Memᴰ v l) same
              (mem-keep_some (λ k. lookup k s.set) s.order (listed k v (content k ∙ x))
                (content k ∙ x)),
      )
