-- ===== src/Dpf/Succeeding.antt =====
-- Lemmas on `merge` of internal/dpf/merge.go: when it returns an error.
use external_dns_iij_dpf_web.Base.{
  Bool, List, [], all, ap, delete, eq_list, eq_ℕ, refl, ◌&&◌, ◌∙◌, ◌∷◌, ◌≡◌,
}
use external_dns_iij_dpf_web.Base.Int.{eq_ℤ}
use external_dns_iij_dpf_web.Dnsname.Name.{Dns, eq_name}
use external_dns_iij_dpf_web.Dpf.Merge.{
  MergeState, collect, drop_all, drop_record, empty_state, merge, merge_state, put_all,
  put_all_current, put_record, put_values,
}
use external_dns_iij_dpf_web.Dpf.Rrtype.{eq_rrtype, to_dpf, to_dpf_supported}
use external_dns_iij_dpf_web.Dpf.Wire.{WireRecord, eq_merge_key, normalize_values, provider_key}
use external_dns_iij_dpf_web.Errors.{is_ok, is_ok->>=, is_ok-map, ok, ◌>>=◌}
use external_dns_iij_dpf_web.Provider.Txt.{TxtCodec}
use external_dns_iij_dpf_web.Provider.Types.{
  ChangeSet, Record, added_records, is_supported_record_type,
}

provider_key_supported : (r : Record) → is_ok (provider_key r) ≡ is_supported_record_type r.rtype
unfolding provider_key
provider_key_supported r =
    is_ok-map (to_dpf r.rtype) (λ rr. record { name = r.name.canonical; rrtype = rr })
    ∙ to_dpf_supported r.rtype

drop_all-is_ok :
    (s : MergeState) (rs : List Record)
    → is_ok (drop_all s rs) ≡ all (λ r. is_supported_record_type r.rtype) rs
unfolding drop_all drop_record
drop_all-is_ok s [] = refl
drop_all-is_ok s (r ∷ rs) =
    let rest = all (λ r. is_supported_record_type r.rtype) rs in
    is_ok->>= (drop_record s r) (λ x. drop_all x rs) rest (λ x e. drop_all-is_ok x rs)
    ∙ ap (λ (b : Bool). b && rest)
        (is_ok-map (provider_key r) (λ k. record s { set = delete k s.set })
          ∙ provider_key_supported r)

module _ (t : TxtCodec) where
  -- The record's type is supported, and its values normalise.
  abbrev pub can_put : Record → Bool
  can_put r = is_supported_record_type r.rtype && is_ok (normalize_values t r)

  put_record-is_ok : (s : MergeState) (r : Record) → is_ok (put_record t s r) ≡ can_put r
  unfolding put_record
  put_record-is_ok s r =
      is_ok->>= (provider_key r) (λ k. normalize_values t r >>= λ vs. ok (put_values s r k vs))
        (is_ok (normalize_values t r)) (λ k e. is_ok-map (normalize_values t r) (put_values s r k))
      ∙ ap (λ (b : Bool). b && is_ok (normalize_values t r)) (provider_key_supported r)

  put_all-is_ok : (s : MergeState) (rs : List Record) → is_ok (put_all t s rs) ≡ all can_put rs
  unfolding put_all
  put_all-is_ok s [] = refl
  put_all-is_ok s (r ∷ rs) =
      is_ok->>= (put_record t s r) (λ x. put_all t x rs) (all can_put rs)
        (λ x e. put_all-is_ok x rs)
      ∙ ap (λ (b : Bool). b && all can_put rs) (put_record-is_ok s r)

  -- A merge succeeds exactly if the types of all records of the change set are supported and the
  -- TXT values of those that it creates or updates normalise; what the zone publishes decides
  -- nothing.
  pub merge-is_ok :
      (d : Dns) (current : List WireRecord) (cs : ChangeSet)
      → is_ok (merge d t current cs)
        ≡ (all (λ r. is_supported_record_type r.rtype) cs.remove && all can_put (added_records cs))
  unfolding merge merge_state
  merge-is_ok d current cs =
      let start = put_all_current d empty_state current in
      is_ok-map (merge_state d t current cs) collect
      ∙ is_ok->>= (drop_all start cs.remove) (λ s. put_all t s (added_records cs))
          (all can_put (added_records cs)) (λ s e. put_all-is_ok s (added_records cs))
      ∙ ap (λ (b : Bool). b && all can_put (added_records cs)) (drop_all-is_ok start cs.remove)
