-- ===== src/Dpf/Content.antt =====
-- Lemmas on `merge` of internal/dpf/merge.go: what its map holds for each key, loop by loop.
use external_dns_iij_dpf_web.Base.{
  Bool, Bool-cases, List, Option, [], any, ap, arith, delete, eq_list, eq_ℕ, false, if◌then◌else◌,
  inl, inr, lookup, lookup-delete, lookup-insert, none, refl, some, sym, true, ◌==◌, ◌||◌, ◌∙◌, ◌∷◌,
  ◌≡◌,
}
use external_dns_iij_dpf_web.Base.Int.{eq_ℤ, ℤ}
use external_dns_iij_dpf_web.Base.Text.{Text}
use external_dns_iij_dpf_web.Dnsname.Name.{Dns, eq_name}
use external_dns_iij_dpf_web.Dpf.Classify.{first}
use external_dns_iij_dpf_web.Dpf.Merge.{
  MergeState, drop_all, drop_record, non_nil_labels, or_fresh, overwritten, put_all,
  put_all_current, put_current, put_record, put_values,
}
use external_dns_iij_dpf_web.Dpf.Rrtype.{eq_rrtype}
use external_dns_iij_dpf_web.Dpf.Wire.{
  MergeKey, WireRecord, eq_merge_key, merge_key_eq_iff, normalize_values, provider_key, wire_key,
}
use external_dns_iij_dpf_web.Errors.{>>=-eq-ok, err, ok, ok-injective, ◌>>=◌}
use external_dns_iij_dpf_web.Provider.Txt.{TxtCodec}
use external_dns_iij_dpf_web.Provider.Types.{Record}

-- A record of the domain has the key `k`.
abbrev pub has_merge_key : MergeKey → Record → Bool
has_merge_key k r = elim (provider_key r) [ ok j ↦ j == k | err e ↦ false ]

module _ (d : Dns) where
  -- The last record with the key `k`, as loop 1 copies it.
  abbrev pub last_current : MergeKey → List WireRecord → Option WireRecord
  last_current k [] = none
  last_current k (r ∷ rs) =
      first (last_current k rs) (if wire_key d r == k then some (non_nil_labels r) else none)

  lookup-put_current :
      (k : MergeKey) (s : MergeState) (r : WireRecord)
      → lookup k (put_current d s r).set
        ≡ (if wire_key d r == k then some (non_nil_labels r) else lookup k s.set)
  unfolding put_current
  lookup-put_current k s r = lookup-insert (wire_key d r) k (non_nil_labels r) s.set

  pub lookup-put_all_current :
      (k : MergeKey) (s : MergeState) (rs : List WireRecord)
      → lookup k (put_all_current d s rs).set ≡ first (last_current k rs) (lookup k s.set)
  unfolding put_all_current
  lookup-put_all_current k s [] = refl
  lookup-put_all_current k s (r ∷ rs) =
      lookup-put_all_current k (put_current d s r) rs
      ∙ ap (λ (o : Option WireRecord). first (last_current k rs) o) (lookup-put_current k s r)
      ∙ ground arith

if_or {ℓ} :
    {A : Type ℓ} (a b : Bool) (x y : A)
    → (if b then x else (if a then x else y)) ≡ (if a || b then x else y)
if_or true true x y = refl
if_or true false x y = refl
if_or false b x y = refl

lookup-drop_record :
    (k : MergeKey) (s : MergeState) (r : Record) {s' : MergeState}
    → drop_record s r ≡ ok s'
    → (lookup k s'.set ≡ (if has_merge_key k r then none else lookup k s.set))
      × (s'.order ≡ s.order)
unfolding drop_record
lookup-drop_record k s r {s'} h =
    let (j, e, f) = >>=-eq-ok (provider_key r) (λ j. ok (record s { set = delete j s.set })) h in
    let same : record s { set = delete j s.set } ≡ s' = ok-injective f in
    rw (e, has_merge_key)
      (
        ap (λ (x : MergeState). lookup k x.set) (sym same) ∙ lookup-delete j k s.set,
        ap (λ (x : MergeState). x.order) (sym same),
      )

pub lookup-drop_all :
    (k : MergeKey) (s : MergeState) (rs : List Record) {s' : MergeState}
    → drop_all s rs ≡ ok s'
    → (lookup k s'.set ≡ (if any (has_merge_key k) rs then none else lookup k s.set))
      × (s'.order ≡ s.order)
unfolding drop_all
lookup-drop_all k s [] h = ground arith
lookup-drop_all k s (r ∷ rs) {s'} h =
    let (s₁, e, f) = >>=-eq-ok (drop_record s r) (λ x. drop_all x rs) h in
    let step = lookup-drop_record k s r e in
    let later = lookup-drop_all k s₁ rs f in
    (
      later.0
          ∙ ap (λ (o : Option WireRecord). if any (has_merge_key k) rs then none else o) step.0
          ∙ if_or (has_merge_key k r) (any (has_merge_key k) rs) none (lookup k s.set),
      later.1 ∙ step.1,
    )

abbrev pub values_of : TxtCodec → Record → List Text
values_of t r = elim (normalize_values t r) [ ok vs ↦ vs | err e ↦ [] ]

overwritten_at :
    (s : MergeState) (ttl : ℤ) (vs : List Text) (j k : MergeKey) (o : Option WireRecord)
    → (if j == k then some (overwritten (or_fresh j (lookup j s.set)) ttl vs) else o)
      ≡ (if j == k then some (overwritten (or_fresh k (lookup k s.set)) ttl vs) else o)
overwritten_at s ttl vs j k o = elim (Bool-cases (j == k)) [
  | inl y ↦ rw y (
      ap (λ (x : MergeKey). some (overwritten (or_fresh x (lookup x s.set)) ttl vs))
        ((merge_key_eq_iff j k).0 y))
  | inr n ↦ rw n
]

module _ (t : TxtCodec) where
  -- What loop 3 makes of the record under the key `k`.
  abbrev pub updated : MergeKey → List Record → Option WireRecord → Option WireRecord
  updated k [] o = o
  updated k (r ∷ rs) o =
      updated k rs
        (if has_merge_key k r then some (overwritten (or_fresh k o) r.ttl (values_of t r)) else o)

  lookup-put_record :
      (k : MergeKey) (s : MergeState) (r : Record) {s' : MergeState}
      → put_record t s r ≡ ok s'
      → lookup k s'.set ≡ (
          if has_merge_key k r
          then some (overwritten (or_fresh k (lookup k s.set)) r.ttl (values_of t r))
          else lookup k s.set)
  unfolding put_record
  lookup-put_record k s r {s'} h =
      let (j, e, f) =
        >>=-eq-ok (provider_key r) (λ j. normalize_values t r >>= λ vs. ok (put_values s r j vs))
          h in
      let (vs, x, g) = >>=-eq-ok (normalize_values t r) (λ vs. ok (put_values s r j vs)) f in
      let same : put_values s r j vs ≡ s' = ok-injective g in
      rw (e, has_merge_key, x, values_of)
        (ap (λ (y : MergeState). lookup k y.set) (sym same)
          ∙ lookup-insert j k (overwritten (or_fresh j (lookup j s.set)) r.ttl vs) s.set
          ∙ overwritten_at s r.ttl vs j k (lookup k s.set))

  pub lookup-put_all :
      (k : MergeKey) (s : MergeState) (rs : List Record) {s' : MergeState}
      → put_all t s rs ≡ ok s'
      → lookup k s'.set ≡ updated k rs (lookup k s.set)
  unfolding put_all
  lookup-put_all k s [] h = ground arith
  lookup-put_all k s (r ∷ rs) {s'} h =
      let (s₁, e, f) = >>=-eq-ok (put_record t s r) (λ x. put_all t x rs) h in
      lookup-put_all k s₁ rs f
      ∙ ap (λ (o : Option WireRecord). updated k rs o) (lookup-put_record k s r e)
