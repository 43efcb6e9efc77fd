-- ===== src/Webhook/Answers.antt =====
-- Lemmas on what the handlers of internal/webhook/handler.go answer, and with which status code.
use external_dns_iij_dpf_web.Base.{
  Bool-cases, List, [], ap, arith, if◌then◌else◌, inl, inr, leb, length, map, nat_eq, nat_eq_iff,
  not, refl, some, ℕ, ◌&&◌, ◌∷◌, ◌≡◌,
}
use external_dns_iij_dpf_web.Base.Int.{ℤ}
use external_dns_iij_dpf_web.Base.Text.{Text}
use external_dns_iij_dpf_web.Dnsname.Name.{Dns}
use external_dns_iij_dpf_web.Dpf.Classified.{classify-is_classified}
use external_dns_iij_dpf_web.Dpf.Classify.{
  api_status, classify, classify_api, classify_status, has_token_error, wrap_api_error,
}
use external_dns_iij_dpf_web.Errors.{Error, err_temporary, generic_error, is, wrap}
use external_dns_iij_dpf_web.Provider.Types.{Record}
use external_dns_iij_dpf_web.Webhook.Status.{status_for}
use external_dns_iij_dpf_web.Webhook.Wire.{Endpoint, adjust_endpoints, adjust_pairs}

-- The status code of a classified API error: 400 exactly for the client errors that are neither
-- "request timeout" nor "too many requests", and 500 for every other status. So 408 is temporary,
-- though the comment on `classifyStatus` counts it among the permanent ones.
pub status_for-api :
    (status : ℕ) (text body : Text)
    → status_for (classify (wrap (wrap_api_error (some status) (generic_error text body)))) ≡ (
        if leb 400 status
          && not (leb 500 status)
          && not (nat_eq status 408)
          && not (nat_eq status 429)
        then 400
        else 500)
unfolding status_for classify classify_api classify_status wrap_api_error is has_token_error
    api_status
status_for-api status text body = ground arith

-- Of a classified error the answer is 400 or 500, and 500 exactly if it is temporary.
status_for-classify :
    (e : Error) → status_for (classify e) ≡ (if is err_temporary (classify e) then 500 else 400)
unfolding status_for
status_for-classify e = ground (arith, classify-is_classified e)

-- What `adjustEndpoints` passes on unread.
abbrev pub opaque_fields : Endpoint → Text × List (Text × Text) × List (Text × Text)
opaque_fields e = (e.set_identifier, e.labels, e.provider_specific)

-- The four fields that `adjustEndpoints` replaces.
abbrev pub read_fields : Endpoint → Text × List Text × Text × ℤ
read_fields e = (e.dns_name, e.targets, e.record_type, e.record_ttl)

module _ (d : Dns) where
  adjust_pairs-opaque :
      (es : List Endpoint) (rs : List Record)
      → length es ≡ length rs
      → map opaque_fields (adjust_pairs d es rs) ≡ map opaque_fields es
  unfolding adjust_pairs
  adjust_pairs-opaque [] rs h = refl
  adjust_pairs-opaque (e ∷ es) [] h = absurd (omega (arith, h))
  adjust_pairs-opaque (e ∷ es) (r ∷ rs) h =
      ap (λ (l : List (Text × List (Text × Text) × List (Text × Text))). opaque_fields e ∷ l)
        (adjust_pairs-opaque es rs (omega (arith, h)))

  -- Adjusting endpoints keeps their number and order, and of each the set identifier, the labels
  -- and the provider-specific properties; this whatever the records.
  pub adjust_endpoints-opaque :
      (es : List Endpoint) (rs : List Record)
      → map opaque_fields (adjust_endpoints d es rs) ≡ map opaque_fields es
  unfolding adjust_endpoints
  adjust_endpoints-opaque es rs = elim (Bool-cases (nat_eq (length es) (length rs))) [
    | inl y ↦ rw y (adjust_pairs-opaque es rs ((nat_eq_iff (length es) (length rs)).0 y))
    | inr n ↦ rw n refl
  ]
