-- ===== src/Webhook/Status.antt =====
-- internal/webhook/errors.go: the status code of an error.
use external_dns_iij_dpf_web.Base.{if◌then◌else◌, ℕ, ◌||◌}
use external_dns_iij_dpf_web.Errors.{
  Error, err_permanent, err_temporary, err_unsupported_type, err_zone_not_found, is,
}

-- `statusFor` of an error; of nil it is 200.
unfoldable pub status_for : Error → ℕ
status_for e =
    if is err_temporary e
    then 500
    else if is err_permanent e || is err_unsupported_type e || is err_zone_not_found e
    then 400
    else 500
