-- ===== src/Dpf/Ordered.antt =====
-- Lemmas on the slice `order` of `merge` of internal/dpf/merge.go.
use external_dns_iij_dpf_web.Base.{
  All, All-append, Bool, Bool-cases, List, Option, [], any, eq_list, eq_ℕ, false, inl, inr, insert,
  lookup, lookup-insert, mem-append_cases, none, refl, some, subst, sym, true, ◌++◌, ◌==◌, ◌∙◌, ◌∷◌,
  ◌≡◌,
}
use external_dns_iij_dpf_web.Base.Int.{eq_ℤ}
use external_dns_iij_dpf_web.Dnsname.Name.{Dns, eq_name}
use external_dns_iij_dpf_web.Dpf.Content.{has_merge_key, lookup-drop_all}
use external_dns_iij_dpf_web.Dpf.Merge.{
  MergeState, drop_all, non_nil_labels, or_fresh, order_for, overwritten, put_all, put_all_current,
  put_current, put_record, put_values,
}
use external_dns_iij_dpf_web.Dpf.Rrtype.{eq_rrtype, rr_a}
use external_dns_iij_dpf_web.Dpf.Wire.{
  MergeKey, WireRecord, eq_merge_key, merge_key_eq_iff, normalize_values, provider_key, wire_key,
}
use external_dns_iij_dpf_web.Errors.{>>=-eq-ok, ok, ok-injective, ◌>>=◌}
use external_dns_iij_dpf_web.Provider.Txt.{TxtCodec}
use external_dns_iij_dpf_web.Provider.Types.{Record}
use external_dns_iij_dpf_web.Telemetry.Metrics.{eq_attributes}
use mathlib.Core.List.{Memᴰ}

abbrev pub Distinct : List MergeKey → Type 0
Distinct [] = Unit
Distinct (k ∷ ks) = All (λ j. (j == k) ≡ false) ks × Distinct ks

Distinct-append :
    (ks : List MergeKey) (j : MergeKey)
    → Distinct ks
    → ((k : MergeKey) → Memᴰ k ks → (j == k) ≡ false)
    → Distinct (ks ++ j ∷ [])
Distinct-append [] j h new = (tt, tt)
Distinct-append (k ∷ ks) j h new = (
  All-append (λ i. (i == k) ≡ false) ks (j ∷ []) h.0 (new k (Memᴰ.head refl), tt),
  Distinct-append ks j h.1 (λ i m. new i (Memᴰ.tail m)),
)

-- No key is twice in the order, and a key of the order that has no record is one of `gone`.
abbrev pub IsOrdered : (MergeKey → Bool) → MergeState → Type 0
IsOrdered gone s =
    Distinct s.order × ((k : MergeKey) → Memᴰ k s.order → lookup k s.set ≡ none → gone k ≡ true)

IsOrdered-insert :
    (gone : MergeKey → Bool) (s : MergeState) (j : MergeKey) (v : WireRecord)
    → IsOrdered gone s
    → gone j ≡ false
    → IsOrdered gone (record { set = insert j v s.set; order = order_for j s })
IsOrdered-insert gone s j v h n = go (lookup j s.set) refl
  where
    other :
        (k : MergeKey)
        → lookup k (insert j v s.set) ≡ none
        → (j == k) ≡ false × (lookup k s.set ≡ none)
    other k e = elim (Bool-cases (j == k)) [
      | inl y ↦ cc (rw y at (sym (lookup-insert j k v s.set) ∙ e))
      | inr m ↦ (m, rw m at (sym (lookup-insert j k v s.set) ∙ e))
    ]

    new : lookup j s.set ≡ none → (k : MergeKey) → Memᴰ k s.order → (j == k) ≡ false
    new x k m = elim (Bool-cases (j == k)) [
      | inr q ↦ q
      | inl y ↦
          let same : j ≡ k = (merge_key_eq_iff j k).0 y in
          cc (h.1 j (subst (λ (i : MergeKey). Memᴰ i s.order) (sym same) m) x, n)
    ]

    go :
        (o : Option WireRecord)
        → lookup j s.set ≡ o
        → IsOrdered gone (record { set = insert j v s.set; order = order_for j s })
    go none x = rw x (
      Distinct-append s.order j h.0 (new x),
      λ k m e. elim (mem-append_cases s.order m) [
        | inl i ↦ h.1 k i (other k e).1
        | inr (Memᴰ.head q) ↦ cc ((other k e).0, (merge_key_eq_iff j k).1 (sym q))
        | inr (Memᴰ.tail i) ↦ elim i [ ]
      ],
    )
    go (some u) x = rw x (h.0, λ k m e. h.1 k m (other k e).1)

module _ (d : Dns) where
  pub IsOrdered-put_all_current :
      (gone : MergeKey → Bool) (s : MergeState) (rs : List WireRecord)
      → ((k : MergeKey) → gone k ≡ false)
      → IsOrdered gone s
      → IsOrdered gone (put_all_current d s rs)
  unfolding put_all_current put_current
  IsOrdered-put_all_current gone s [] n h = h
  IsOrdered-put_all_current gone s (r ∷ rs) n h =
      IsOrdered-put_all_current gone (put_current d s r) rs n
        (IsOrdered-insert gone s (wire_key d r) (non_nil_labels r) h (n (wire_key d r)))

-- What is deleted stays in the order.
pub IsOrdered-drop_all :
    (s : MergeState) (rs : List Record) {s' : MergeState}
    → drop_all s rs ≡ ok s'
    → IsOrdered (λ k. false) s
    → IsOrdered (λ k. any (has_merge_key k) rs) s'
IsOrdered-drop_all s rs {s'} e h = (
  subst Distinct (sym (lookup-drop_all (record { name = []; rrtype = rr_a }) s rs e).1) h.0,
  λ k m x.
      let (content, order) = lookup-drop_all k s rs e in
      elim (Bool-cases (any (has_merge_key k) rs)) [
        | inl y ↦ y
        | inr n ↦
            cc (
              h.1 k (subst (λ (ks : List MergeKey). Memᴰ k ks) order m) (rw n at (sym content ∙ x)))
      ],
)

module _ (t : TxtCodec) where
  IsOrdered-put_record :
      (gone : MergeKey → Bool) (s : MergeState) (r : Record) {s' : MergeState}
      → put_record t s r ≡ ok s'
      → ((k : MergeKey) → provider_key r ≡ ok k → gone k ≡ false)
      → IsOrdered gone s
      → IsOrdered gone s'
  unfolding put_record
  IsOrdered-put_record gone s r {s'} e n h =
      let (j, p, f) =
        >>=-eq-ok (provider_key r) (λ j. normalize_values t r >>= λ vs. ok (put_values s r j vs))
          e in
      let (vs, x, g) = >>=-eq-ok (normalize_values t r) (λ vs. ok (put_values s r j vs)) f in
      subst (IsOrdered gone) (ok-injective g)
        (IsOrdered-insert gone s j (overwritten (or_fresh j (lookup j s.set)) r.ttl vs) h (n j p))

  pub IsOrdered-put_all :
      (gone : MergeKey → Bool) (s : MergeState) (rs : List Record) {s' : MergeState}
      → put_all t s rs ≡ ok s'
      → ((r : Record) → Memᴰ r rs → (k : MergeKey) → provider_key r ≡ ok k → gone k ≡ false)
      → IsOrdered gone s
      → IsOrdered gone s'
  unfolding put_all
  IsOrdered-put_all gone s [] e n h = subst (IsOrdered gone) (ok-injective e) h
  IsOrdered-put_all gone s (r ∷ rs) e n h =
      let (s₁, p, f) = >>=-eq-ok (put_record t s r) (λ x. put_all t x rs) e in
      IsOrdered-put_all gone s₁ rs f (λ q m. n q (Memᴰ.tail m))
        (IsOrdered-put_record gone s r p (n r (Memᴰ.head refl)) h)
