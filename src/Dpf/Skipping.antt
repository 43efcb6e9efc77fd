-- ===== src/Dpf/Skipping.antt =====
-- Lemmas on the edit of internal/dpf/apply.go that asks to skip, and on `unchanged` of
-- internal/dpf/merge.go.
use external_dns_iij_dpf_web.Base.{
  ==_iff, Bool, List, Option, [], ap, arith, eq_list, eq_ℕ, false, if◌then◌else◌, none, refl, some,
  subst, sym, true, ◌∙◌, ◌∷◌, ◌≡◌,
}
use external_dns_iij_dpf_web.Base.Int.{eq_ℤ, ℤ}
use external_dns_iij_dpf_web.Base.Text.{Text}
use external_dns_iij_dpf_web.Dnsname.Name.{Dns, eq_name}
use external_dns_iij_dpf_web.Dpf.Apply.{edit, finish_edit, submit_or_skip}
use external_dns_iij_dpf_web.Dpf.Classify.{classify}
use external_dns_iij_dpf_web.Dpf.Failing.{IsRefusal, merge-IsRefusal, provider_key-IsRefusal}
use external_dns_iij_dpf_web.Dpf.Guard.{
  aborted, guard, requested_keys, same_rdata, same_record, same_ttl, same_value, unchanged,
}
use external_dns_iij_dpf_web.Dpf.Label.{apply_managed_by}
use external_dns_iij_dpf_web.Dpf.Merge.{merge}
use external_dns_iij_dpf_web.Dpf.Rrtype.{Rrtype, eq_rrtype}
use external_dns_iij_dpf_web.Dpf.Wire.{
  MergeKey, WireRecord, eq_merge_key, key_of, provider_key, raw_key, wire_key,
}
use external_dns_iij_dpf_web.Errors.{
  Error, IsPermanent, OnError, OnError->>=, Result, err, err-injective, is, ok, sentinel,
  skip_apply, ◌>>◌,
}
use external_dns_iij_dpf_web.Provider.Txt.{TxtCodec}
use external_dns_iij_dpf_web.Provider.Types.{ChangeSet, Record}
use external_dns_iij_dpf_web.Provider.Validate.{check}
use external_dns_iij_dpf_web.Telemetry.Metrics.{eq_attributes}
use mathlib.Core.List.{Memᴰ}
use mathlib.Core.Path.{ap₂}

same_ttl-eq : (a b : Option ℤ) → same_ttl a b ≡ true → a ≡ b
same_ttl-eq none none h = refl
same_ttl-eq none (some b) h = cc h
same_ttl-eq (some a) none h = cc h
same_ttl-eq (some a) (some b) h = ap (λ (x : ℤ). some x) ((==_iff a b).0 h)

same_value-eq : (a b : Option Text) → same_value a b ≡ true → a ≡ b
same_value-eq none none h = refl
same_value-eq none (some b) h = cc h
same_value-eq (some a) none h = cc h
same_value-eq (some a) (some b) h = ap (λ (x : Text). some x) ((==_iff a b).0 h)

same_rdata-eq : (xs ys : List (Option Text)) → same_rdata xs ys ≡ true → xs ≡ ys
same_rdata-eq [] [] h = refl
same_rdata-eq [] (y ∷ ys) h = cc h
same_rdata-eq (x ∷ xs) [] h = cc h
same_rdata-eq (x ∷ xs) (y ∷ ys) h =
    ap₂ (λ (a : Option Text) (l : List (Option Text)). a ∷ l) (same_value-eq x y (ground arith))
      (same_rdata-eq xs ys (ground arith))

-- The key of a record is that of its name and its type.
pub wire_key_of_raw_key :
    (d : Dns) (u v : WireRecord) → raw_key u ≡ raw_key v → wire_key d u ≡ wire_key d v
unfolding wire_key
wire_key_of_raw_key d u v h =
    ap (λ (k : MergeKey). elim (key_of d k.name k.rrtype) [ ok j ↦ j | err e ↦ k ]) h

-- The name, the type, the TTL and the values of two records are the same.
abbrev pub IsLike : WireRecord → WireRecord → Type 0
IsLike u v = (raw_key u ≡ raw_key v) × (u.ttl ≡ v.ttl) × (u.rdata ≡ v.rdata)

pub same_record-IsLike : (u v : WireRecord) → same_record u v ≡ true → IsLike u v
unfolding same_record
same_record-IsLike u v h = (
  ap₂ (λ (n : Text) (t : Rrtype). record { name = n; rrtype = t })
      ((==_iff u.name v.name).0 (ground arith)) ((==_iff u.rrtype v.rrtype).0 (ground arith)),
  same_ttl-eq u.ttl v.ttl (ground arith),
  same_rdata-eq u.rdata v.rdata (ground arith),
)

-- Each record of an unchanged set is like one that is published.
pub IsLike-of_unchanged :
    (xs ys : List WireRecord) (v : WireRecord)
    → unchanged xs ys ≡ true
    → Memᴰ v ys
    → (u : WireRecord) × Memᴰ u xs × IsLike u v
unfolding unchanged
IsLike-of_unchanged [] [] v h m = elim m [ ]
IsLike-of_unchanged [] (y ∷ ys) v h m = cc h
IsLike-of_unchanged (x ∷ xs) [] v h m = elim m [ ]
IsLike-of_unchanged (x ∷ xs) (y ∷ ys) v h (Memᴰ.head e) = (
  x,
  Memᴰ.head refl,
  subst (λ (w : WireRecord). IsLike x w) (sym e) (same_record-IsLike x y (ground arith)),
)
IsLike-of_unchanged (x ∷ xs) (y ∷ ys) v h (Memᴰ.tail m) =
    let (u, k, l) = IsLike-of_unchanged xs ys v (ground arith) m in (u, Memᴰ.tail k, l)

-- The error does not ask to skip.
abbrev IsLoud : Error → Type 0
IsLoud e = is skip_apply e ≡ false

aborted-IsLoud : IsLoud aborted
unfolding is
aborted-IsLoud = refl

requested_keys-IsLoud : (rs : List Record) → OnError IsLoud (requested_keys rs)
unfolding requested_keys
requested_keys-IsLoud [] = tt
requested_keys-IsLoud (r ∷ rs) =
    OnError->>= IsLoud (provider_key r) _ (loud (provider_key r) (provider_key-IsRefusal r)) (λ k.
      OnError->>= IsLoud (requested_keys rs) (λ ks. ok (k ∷ ks)) (requested_keys-IsLoud rs)
        (λ ks. tt))
  where
    loud : (m : Result MergeKey) → OnError IsRefusal m → OnError IsLoud m
    loud (ok k) h = tt
    loud (err e) h = h.1

guard-IsLoud :
    (d : Dns) (current set : List WireRecord) (cs : ChangeSet)
    → OnError IsLoud (guard d current set cs)
unfolding guard
guard-IsLoud d current set cs =
    OnError->>= IsLoud (requested_keys cs.remove) _ (requested_keys-IsLoud cs.remove)
      (λ ks. checked _)
  where
    checked : (b : Bool) → OnError IsLoud (check b aborted)
    checked true = tt
    checked false = aborted-IsLoud

classify-permanent : (e : Error) → IsPermanent e → classify e ≡ e
unfolding classify
classify-permanent e h = ground (arith, h)

-- An edit asks to skip only if the merge succeeds and its marked set is what is published.
pub edit-skips :
    (d : Dns) (t : TxtCodec) (cs : ChangeSet) (current : List WireRecord) (f : Error)
    → edit d t cs current ≡ err f
    → is skip_apply f ≡ true
    → (out : List WireRecord) × (merge d t current cs ≡ ok out)
      × (unchanged current (apply_managed_by out cs) ≡ true)
unfolding edit submit_or_skip
edit-skips d t cs current f h k = go (merge d t current cs) refl (merge-IsRefusal t d current cs) h
  where
    submit :
        (out : List WireRecord) (g : Result (Unit {0})) (b : Bool)
        → OnError IsLoud g
        → (g >> (if b then err (sentinel skip_apply) else ok (apply_managed_by out cs))) ≡ err f
        → b ≡ true
    submit out (err e) b l x =
        let same : e ≡ f = err-injective x in cc (k, ap (λ (a : Error). is skip_apply a) same, l)
    submit out (ok u) true l x = refl
    submit out (ok u) false l x = cc x

    go :
        (m : Result (List WireRecord))
        → merge d t current cs ≡ m
        → OnError IsRefusal m
        → finish_edit d current cs m ≡ err f
        → (out : List WireRecord) × (merge d t current cs ≡ ok out)
          × (unchanged current (apply_managed_by out cs) ≡ true)
    go (ok out) e l x = (
      out,
      e,
      submit out (guard d current (apply_managed_by out cs) cs)
          (unchanged current (apply_managed_by out cs))
          (guard-IsLoud d current (apply_managed_by out cs) cs) x,
    )
    go (err c) e l x =
        let same : c ≡ f = sym (classify-permanent c l.0) ∙ err-injective x in
        let loud : is skip_apply f ≡ false = ap (λ (a : Error). is skip_apply a) (sym same) ∙ l.1 in
        ([], cc (k, loud), cc (k, loud))
