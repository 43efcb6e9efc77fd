-- ===== src/Dpf/Guarded.antt =====
-- Lemmas on `guard` of internal/dpf/merge.go, of any set and of a merged one.
use external_dns_iij_dpf_web.Base.{
  All, All-all, All-mem, All-of_mem, Bool, Bool-cases, List, Option, Option-cases, [], all, all-All,
  any, any-map, any_of_mem, ap, contains, delete, eq_list, eq_ℕ, false, if◌then◌else◌, inl, inr,
  map, none, refl, some, some_inj, sym, true, ◌==◌, ◌||◌, ◌↔◌, ◌∙◌, ◌∷◌, ◌≡◌,
}
use external_dns_iij_dpf_web.Base.Int.{eq_ℤ}
use external_dns_iij_dpf_web.Dnsname.Name.{Dns, eq_name}
use external_dns_iij_dpf_web.Dpf.Content.{has_merge_key, last_current, updated, values_of}
use external_dns_iij_dpf_web.Dpf.Guard.{aborted, covered, guard, requested_keys}
use external_dns_iij_dpf_web.Dpf.Label.{apply_managed_by}
use external_dns_iij_dpf_web.Dpf.Labelled.{apply_managed_by-eq-map, marked, raw_key-marked}
use external_dns_iij_dpf_web.Dpf.Membership.{mem-merge_iff}
use external_dns_iij_dpf_web.Dpf.Merge.{
  MergeState, collect, drop_all, drop_record, empty_state, merge, merge_state, non_nil_labels,
  overwritten, put_all, put_all_current,
}
use external_dns_iij_dpf_web.Dpf.Preserved.{mem_of_last_current}
use external_dns_iij_dpf_web.Dpf.Rrtype.{eq_rrtype}
use external_dns_iij_dpf_web.Dpf.Wire.{
  MergeKey, WireRecord, eq_merge_key, merge_key_eq_iff, provider_key, raw_key, wire_key,
}
use external_dns_iij_dpf_web.Errors.{>>=-eq-ok, Error, ok, ok-injective, ◌>>=◌}
use external_dns_iij_dpf_web.Provider.Txt.{TxtCodec}
use external_dns_iij_dpf_web.Provider.Types.{ChangeSet, Record, added_records}
use external_dns_iij_dpf_web.Provider.Validate.{check}
use mathlib.Core.List.{Memᴰ}

requested_keys-contains :
    (k : MergeKey) (rs : List Record) (ks : List MergeKey)
    → requested_keys rs ≡ ok ks
    → contains ks k ≡ any (has_merge_key k) rs
unfolding requested_keys
requested_keys-contains k [] ks h = ap (λ (l : List MergeKey). contains l k) (sym (ok-injective h))
requested_keys-contains k (r ∷ rs) ks h =
    let (j, e, f) = >>=-eq-ok (provider_key r) (λ j. requested_keys rs >>= λ js. ok (j ∷ js)) h in
    let (js, x, g) = >>=-eq-ok (requested_keys rs) (λ js. ok (j ∷ js)) f in
    ap (λ (l : List MergeKey). contains l k) (sym (ok-injective g))
    ∙ rw (e, has_merge_key) (ap (λ (b : Bool). (j == k) || b) (requested_keys-contains k rs js x))

module _ (d : Dns) where
  -- A record of the zone is in the set under its key, or its deletion is asked for.
  abbrev pub IsKept : List WireRecord → ChangeSet → WireRecord → Type 0
  IsKept set cs r =
      (any (λ o. raw_key o == wire_key d r) set || any (has_merge_key (wire_key d r)) cs.remove)
      ≡ true

  abbrev pub is_kept : List WireRecord → ChangeSet → WireRecord → Bool
  is_kept set cs r =
      any (λ o. raw_key o == wire_key d r) set || any (has_merge_key (wire_key d r)) cs.remove

  covered-eq :
      (set : List WireRecord) (cs : ChangeSet) (ks : List MergeKey)
      → requested_keys cs.remove ≡ ok ks
      → (r : WireRecord) → covered d (map (λ o. raw_key o) set) ks r ≡ is_kept set cs r
  covered-eq set cs ks e r =
      ap (λ (b : Bool). b || contains ks (wire_key d r))
        (any-map (λ x. x == wire_key d r) (λ o. raw_key o) set)
      ∙ ap (λ (b : Bool). any (λ o. raw_key o == wire_key d r) set || b)
          (requested_keys-contains (wire_key d r) cs.remove ks e)

  check_iff : (b : Bool) (e : Error) → (check b e ≡ ok tt) ↔ (b ≡ true)
  check_iff true e = (λ h. refl, λ h. refl)
  check_iff false e = (λ h. cc h, λ h. cc h)

  all_congr :
      {A : Type 0} (p q : A → Bool) (xs : List A) → ((a : A) → p a ≡ q a) → all p xs ≡ all q xs
  all_congr p q [] h = refl
  all_congr p q (x ∷ xs) h = rw (h x, all_congr p q xs h)

  -- The guard lets a set pass exactly if each record of the zone is in it under the key that its
  -- name parses to, or has a key whose deletion the change set asks for; the types of the records
  -- to delete are supported ones. A set that keeps a record whose deletion is asked for passes too:
  -- the guard is against losses only, where data-model.md wants what is lost to be exactly what is
  -- asked for.
  pub guard_iff :
      (current set : List WireRecord) (cs : ChangeSet) (ks : List MergeKey)
      → requested_keys cs.remove ≡ ok ks
      → (guard d current set cs ≡ ok tt) ↔ All (IsKept set cs) current
  unfolding guard
  guard_iff current set cs ks e =
      let same : all (covered d (map (λ o. raw_key o) set) ks) current
          ≡ all (is_kept set cs) current =
        all_congr _ _ current (covered-eq set cs ks e) in
      (
        λ h. all-All (is_kept set cs) current (sym same ∙ (check_iff _ aborted).0 (rw e at h)),
        λ h. rw e ((check_iff _ aborted).1 (same ∙ All-all (is_kept set cs) current h)),
      )

requested_keys_of_drop_all :
    (s s' : MergeState) (rs : List Record)
    → drop_all s rs ≡ ok s'
    → (ks : List MergeKey) × (requested_keys rs ≡ ok ks)
unfolding drop_all drop_record requested_keys
requested_keys_of_drop_all s s' [] h = ([], refl)
requested_keys_of_drop_all s s' (r ∷ rs) h =
    let (s₁, e, f) = >>=-eq-ok (drop_record s r) (λ x. drop_all x rs) h in
    let (k, x, y) = >>=-eq-ok (provider_key r) (λ k. ok (record s { set = delete k s.set })) e in
    let (ks, z) = requested_keys_of_drop_all s₁ s' rs f in (k ∷ ks, rw (x, z))

or_true : (b : Bool) → (b || true) ≡ true
or_true true = refl
or_true false = refl

module _ (t : TxtCodec) where
  raw_key-updated :
      (k : MergeKey) (rs : List Record) (b v : WireRecord)
      → updated t k rs (some b) ≡ some v
      → raw_key v ≡ raw_key b
  raw_key-updated k [] b v e = ap (λ (x : WireRecord). raw_key x) (sym (some_inj e))
  raw_key-updated k (r ∷ rs) b v e = elim (Bool-cases (has_merge_key k r)) [
    | inl y ↦ raw_key-updated k rs (overwritten b r.ttl (values_of t r)) v (rw y at e)
    | inr n ↦ raw_key-updated k rs b v (rw n at e)
  ]

  updated-some :
      (k : MergeKey) (rs : List Record) (b : WireRecord)
      → (v : WireRecord) × (updated t k rs (some b) ≡ some v)
  updated-some k [] b = (b, refl)
  updated-some k (r ∷ rs) b = elim (Bool-cases (has_merge_key k r)) [
    | inl y ↦ rw y (updated-some k rs (overwritten b r.ttl (values_of t r)))
    | inr n ↦ rw n (updated-some k rs b)
  ]

module _ (d : Dns) where
  last_current-some :
      (r : WireRecord) (rs : List WireRecord)
      → Memᴰ r rs
      → (v : WireRecord) × (last_current d (wire_key d r) rs ≡ some v)
  last_current-some r [] m = elim m [ ]
  last_current-some r (q ∷ rs) m =
      go (last_current d (wire_key d r) rs) refl m (last_current-some r rs)
    where
      go :
          (o : Option WireRecord)
          → last_current d (wire_key d r) rs ≡ o
          → Memᴰ r (q ∷ rs)
          → (Memᴰ r rs → (v : WireRecord) × (last_current d (wire_key d r) rs ≡ some v))
          → (v : WireRecord) × (last_current d (wire_key d r) (q ∷ rs) ≡ some v)
      go (some x) e m ih = (x, rw e)
      go none e (Memᴰ.head p) ih = (
        non_nil_labels q,
        rw (
          e,
          (merge_key_eq_iff (wire_key d q) (wire_key d r)).1
              (ap (λ (x : WireRecord). wire_key d x) (sym p)),
        ),
      )
      go none e (Memᴰ.tail n) ih = let (v, x) = ih n in cc (sym e ∙ x)

  -- The name of the record is in canonical form, or is no domain name at all.
  abbrev pub IsExact : WireRecord → Type 0
  IsExact r = raw_key r ≡ wire_key d r

  raw_key-non_nil_labels : (r : WireRecord) → raw_key (non_nil_labels r) ≡ raw_key r
  raw_key-non_nil_labels r = elim (Option-cases r.labels) [ inl n ↦ rw n | inr (x, e) ↦ rw e ]

  -- Where the names of the zone are in canonical form, the guard lets the marked set of every
  -- successful merge pass: a merge loses no record whose deletion is not asked for.
  pub guard-merge :
      (t : TxtCodec) (current : List WireRecord) (cs : ChangeSet) (out : List WireRecord)
      → merge d t current cs ≡ ok out
      → All IsExact current
      → guard d current (apply_managed_by out cs) cs ≡ ok tt
  unfolding merge merge_state
  guard-merge t current cs out h exact =
      let (s, e, f) = >>=-eq-ok (merge_state d t current cs) (λ s. ok (collect s)) h in
      let (s₁, e₁, e₂) =
        >>=-eq-ok (drop_all (put_all_current d empty_state current) cs.remove)
          (λ s. put_all t s (added_records cs)) e in
      let (ks, asked) =
        requested_keys_of_drop_all (put_all_current d empty_state current) s₁ cs.remove e₁ in
      (guard_iff d current (apply_managed_by out cs) cs ks asked).1
        (All-of_mem (IsKept d (apply_managed_by out cs) cs) current (kept h))
    where
      kept :
          merge d t current cs ≡ ok out
          → (r : WireRecord) → Memᴰ r current
          → IsKept d (apply_managed_by out cs) cs r
      kept g r m = elim (Bool-cases (any (has_merge_key (wire_key d r)) cs.remove)) [
        | inl y ↦ rw y (or_true (any (λ o. raw_key o == wire_key d r) (apply_managed_by out cs)))
        | inr n ↦
            let (b, p) = last_current-some r current m in
            let (q, u, w, x) = mem_of_last_current d (wire_key d r) b current p in
            let (v, z) = updated-some t (wire_key d r) (added_records cs) b in
            let k = wire_key d r in
            let inside : Memᴰ v out = (mem-merge_iff d t current cs out v g).1 k (
              ap
                (λ (a : Bool).
                  updated t k (added_records cs) (if a then none else last_current d k current))
                n
              ∙ ap (λ (o : Option WireRecord). updated t k (added_records cs) o) p
              ∙ z) in
            let named : raw_key v ≡ k =
              raw_key-updated t k (added_records cs) b v z
              ∙ ap (λ (a : WireRecord). raw_key a) w
              ∙ raw_key-non_nil_labels q
              ∙ All-mem IsExact exact u
              ∙ x in
            let seen : any (λ o. raw_key o == k) (apply_managed_by out cs) ≡ true =
              ap (λ (l : List WireRecord). any (λ o. raw_key o == k) l)
                (apply_managed_by-eq-map out cs)
              ∙ any-map (λ o. raw_key o == k) (marked cs) out
              ∙ any_of_mem (λ o. raw_key (marked cs o) == k) out inside
                  ((merge_key_eq_iff (raw_key (marked cs v)) k).1 (raw_key-marked cs v ∙ named)) in
            rw seen
      ]
