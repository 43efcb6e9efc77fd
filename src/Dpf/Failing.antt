-- ===== src/Dpf/Failing.antt =====
-- Lemmas on the errors of `merge` of internal/dpf/merge.go.
use external_dns_iij_dpf_web.Base.{
  Bool-cases, List, Option, [], delete, eq_list, eq_ℕ, false, inl, inr, leb, length, lookup, none,
  refl, some, subst, sym, ◌&&◌, ◌++◌, ◌==◌, ◌∷◌, ◌≡◌,
}
use external_dns_iij_dpf_web.Base.Int.{eq_ℤ}
use external_dns_iij_dpf_web.Base.Text.{Text, after_text, codes}
use external_dns_iij_dpf_web.Dnsname.Name.{Dns, eq_name}
use external_dns_iij_dpf_web.Dpf.Merge.{
  MergeState, collect, drop_all, drop_record, empty_state, merge, merge_state, put_all,
  put_all_current, put_record, put_values,
}
use external_dns_iij_dpf_web.Dpf.Rrtype.{Rrtype, eq_rrtype, sent_as, to_dpf, type_to_dpf}
use external_dns_iij_dpf_web.Dpf.Wire.{
  WireRecord, eq_merge_key, normalize_all, normalize_values, provider_key,
}
use external_dns_iij_dpf_web.Errors.{
  Error, IsPermanent, OnError, OnError->>=, Result, err, err_permanent, is, ok, plain, sentinel,
  skip_apply, wrap2, ◌>>=◌,
}
use external_dns_iij_dpf_web.Provider.Txt.{
  TxtCodec, count_quoted_segments, has_quote, normalize_txt, parse_txt, quoted, txt_rdata,
}
use external_dns_iij_dpf_web.Provider.Types.{
  ChangeSet, Record, RecordType, added_records, type_txt, unsupported,
}

-- The error is a permanent one, and does not ask to skip.
abbrev pub IsRefusal : Error → Type 0
IsRefusal e = IsPermanent e × (is skip_apply e ≡ false)

unsupported-IsRefusal : IsRefusal unsupported
unfolding is
unsupported-IsRefusal = (refl, refl)

plain-IsRefusal : IsRefusal (wrap2 (sentinel err_permanent) plain)
unfolding is
plain-IsRefusal = (refl, refl)

to_dpf-IsRefusal : (t : RecordType) → OnError IsRefusal (to_dpf t)
unfolding to_dpf
to_dpf-IsRefusal t = go (lookup t type_to_dpf)
  where
    go : (o : Option Rrtype) → OnError IsRefusal (sent_as o)
    go none = unsupported-IsRefusal
    go (some r) = tt

pub provider_key-IsRefusal : (r : Record) → OnError IsRefusal (provider_key r)
unfolding provider_key
provider_key-IsRefusal r =
    OnError->>= IsRefusal (to_dpf r.rtype)
      (λ rr. ok (record { name = r.name.canonical; rrtype = rr })) (to_dpf-IsRefusal r.rtype)
      (λ rr. tt)

drop_all-IsRefusal : (s : MergeState) (rs : List Record) → OnError IsRefusal (drop_all s rs)
unfolding drop_all drop_record
drop_all-IsRefusal s [] = tt
drop_all-IsRefusal s (r ∷ rs) =
    OnError->>= IsRefusal (drop_record s r) (λ x. drop_all x rs)
      (OnError->>= IsRefusal (provider_key r) (λ k. ok (record s { set = delete k s.set }))
        (provider_key-IsRefusal r) (λ k. tt))
      (λ x. drop_all-IsRefusal x rs)

module _ (t : TxtCodec) where
  -- The TXT reader fails with a message alone.
  abbrev IsPlain : Error → Type 0
  IsPlain e = e ≡ plain

  parse_txt-IsPlain : (v : Text) → OnError IsPlain (parse_txt t v)
  unfolding parse_txt
  parse_txt-IsPlain v = go (t.new_rr (codes "txt-parse.invalid. 0 IN TXT " ++ quoted v))
    where
      go : (o : Option t.Rr) → OnError IsPlain (elim o [ none ↦ err plain | some rr ↦ ok rr ])
      go none = refl
      go (some rr) = tt

  txt_rdata-IsPlain : (rr : t.Rr) (v : Text) → OnError IsPlain (txt_rdata t rr v)
  unfolding txt_rdata
  txt_rdata-IsPlain rr v = go (after_text (codes "TXT" ++ 9 ∷ []) (t.print rr))
    where
      go : (o : Option Text) → OnError IsPlain (elim o [ none ↦ err plain | some s ↦ ok s ])
      go none = refl
      go (some s) = tt

  normalize_txt-IsPlain : (v : Text) → OnError IsPlain (normalize_txt t v)
  unfolding normalize_txt
  normalize_txt-IsPlain v = OnError->>= IsPlain (parse_txt t v) _ (parse_txt-IsPlain v) (λ rr.
      elim (Bool-cases (leb (length (t.strings rr)) (count_quoted_segments v) && has_quote v)) [
        | inl y ↦ rw y tt
        | inr n ↦ rw n (txt_rdata-IsPlain rr v)
      ])

  normalize_all-IsRefusal : (vs : List Text) → OnError IsRefusal (normalize_all t vs)
  unfolding normalize_all
  normalize_all-IsRefusal [] = tt
  normalize_all-IsRefusal (v ∷ vs) =
      go (normalize_txt t v) (normalize_txt-IsPlain v) (normalize_all-IsRefusal vs)
    where
      go :
          (m : Result Text)
          → OnError IsPlain m
          → OnError IsRefusal (normalize_all t vs)
          → OnError IsRefusal (elim m [
            | ok n ↦ normalize_all t vs >>= λ ns. ok (n ∷ ns)
            | err e ↦ err (wrap2 (sentinel err_permanent) e)
          ])
      go (ok n) p q = OnError->>= IsRefusal (normalize_all t vs) (λ ns. ok (n ∷ ns)) q (λ ns. tt)
      go (err e) p q =
          subst (λ (f : Error). IsRefusal (wrap2 (sentinel err_permanent) f)) (sym p)
            plain-IsRefusal

  normalize_values-IsRefusal : (r : Record) → OnError IsRefusal (normalize_values t r)
  unfolding normalize_values
  normalize_values-IsRefusal r = elim (Bool-cases (r.rtype == type_txt)) [
    | inl y ↦ rw y (normalize_all-IsRefusal r.values)
    | inr n ↦ rw n tt
  ]

  put_all-IsRefusal : (s : MergeState) (rs : List Record) → OnError IsRefusal (put_all t s rs)
  unfolding put_all put_record
  put_all-IsRefusal s [] = tt
  put_all-IsRefusal s (r ∷ rs) =
      OnError->>= IsRefusal (put_record t s r) (λ x. put_all t x rs)
        (OnError->>= IsRefusal (provider_key r)
          (λ k. normalize_values t r >>= λ vs. ok (put_values s r k vs)) (provider_key-IsRefusal r)
          (λ k.
            OnError->>= IsRefusal (normalize_values t r) (λ vs. ok (put_values s r k vs))
              (normalize_values-IsRefusal r) (λ vs. tt)))
        (λ x. put_all-IsRefusal x rs)

  -- A merge that fails does so with a permanent error.
  pub merge-IsRefusal :
      (d : Dns) (current : List WireRecord) (cs : ChangeSet)
      → OnError IsRefusal (merge d t current cs)
  unfolding merge merge_state
  merge-IsRefusal d current cs =
      OnError->>= IsRefusal (merge_state d t current cs) (λ s. ok (collect s))
        (OnError->>= IsRefusal (drop_all (put_all_current d empty_state current) cs.remove)
          (λ s. put_all t s (added_records cs))
          (drop_all-IsRefusal (put_all_current d empty_state current) cs.remove)
          (λ s. put_all-IsRefusal s (added_records cs)))
        (λ s. tt)
