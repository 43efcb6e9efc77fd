-- ===== src/Dpf/Classified.antt =====
-- Lemmas on `Classify` of internal/dpf/errors.go.
use external_dns_iij_dpf_web.Base.{Bool, Option, arith, none, refl, some, true, ℕ, ◌||◌, ◌≡◌}
use external_dns_iij_dpf_web.Base.Text.{Text}
use external_dns_iij_dpf_web.Dpf.Classify.{
  api_body, api_status, by_api_status, by_body, by_status, classify, classify_api, classify_raw,
  classify_status, generic_status, permanent_of, temporary, with_api_body,
}
use external_dns_iij_dpf_web.Errors.{Error, err_permanent, err_temporary, is}

-- `ErrTemporary` or `ErrPermanent` is in the tree.
abbrev pub is_classified : Error → Bool
is_classified e = is err_temporary e || is err_permanent e

temporary-is_classified : (e : Error) → is_classified (temporary e) ≡ true
unfolding is
temporary-is_classified e = refl

permanent_of-is_classified : (e : Error) → is_classified (permanent_of e) ≡ true
unfolding is
permanent_of-is_classified e = ground arith

classify_status-is_classified : (n : ℕ) (e : Error) → is_classified (classify_status n e) ≡ true
unfolding is classify_status
classify_status-is_classified n e = ground arith

classify_raw-is_classified : (e : Error) → is_classified (classify_raw e) ≡ true
unfolding is classify_raw
classify_raw-is_classified e = go (api_body e)
  where
    status : (o : Option ℕ) (body : Text) → is_classified (by_status o e body) ≡ true
    status none body = refl
    status (some n) body = classify_status-is_classified n (with_api_body e body)

    go : (o : Option (Text × Text)) → is_classified (by_body o e) ≡ true
    go none = refl
    go (some (text, body)) = status (generic_status text) body

classify_api-is_classified : (e : Error) → is_classified (classify_api e) ≡ true
unfolding classify_api
classify_api-is_classified e = go (api_status e)
  where
    go : (o : Option ℕ) → is_classified (by_api_status o e) ≡ true
    go none = classify_raw-is_classified e
    go (some n) = classify_status-is_classified n e

-- Whatever the error, `Classify` answers one that is temporary or permanent.
pub classify-is_classified : (e : Error) → is_classified (classify e) ≡ true
unfolding is classify
classify-is_classified e = ground (arith, classify_api-is_classified e)

-- A classified error is left as it is, so classifying twice is classifying once.
pub classify_idempotent : (e : Error) → classify (classify e) ≡ classify e
classify_idempotent e = unfold classify in rw (classify-is_classified e)
