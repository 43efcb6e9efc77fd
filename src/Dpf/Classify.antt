-- ===== src/Dpf/Classify.antt =====
-- internal/dpf/errors.go: whether a failure is temporary or permanent.
use external_dns_iij_dpf_web.Base.{
  Bool, Option, [], false, if◌then◌else◌, is_empty, leb, nat_eq, none, some, true, ℕ, ◌&&◌, ◌||◌,
}
use external_dns_iij_dpf_web.Base.Int.{negsuc, pos, ℤ}
use external_dns_iij_dpf_web.Base.Text.{Text, atoi, before_space, trim_space}
use external_dns_iij_dpf_web.Errors.{
  Error, api_error, canceled, deadline_exceeded, err_permanent, err_temporary, err_zone_not_found,
  generic_error, is, label_limit, not_lock_holder, sentinel, still_lock, token_error,
  utils_zone_not_found, wrap, wrap2, wrap_text,
}

abbrev pub temporary : Error → Error
temporary e = wrap2 (sentinel err_temporary) e

abbrev pub permanent_of : Error → Error
permanent_of e = wrap2 (sentinel err_permanent) e

-- `errors.As` for `*utils.TokenError`.
unfoldable pub has_token_error : Error → Bool
has_token_error (token_error text) = true
has_token_error (api_error status e detail) = has_token_error e
has_token_error (wrap e) = has_token_error e
has_token_error (wrap2 e f) = has_token_error e || has_token_error f
has_token_error (wrap_text e text) = has_token_error e
has_token_error _ = false

abbrev pub first {ℓ} : {A : Type ℓ} → Option A → Option A → Option A
first none b = b
first (some a) b = some a

-- `errors.As` for `*apiError`: the status of the first one.
unfoldable pub api_status : Error → Option ℕ
api_status (api_error status e detail) = some status
api_status (wrap e) = api_status e
api_status (wrap2 e f) = first (api_status e) (api_status f)
api_status (wrap_text e text) = api_status e
api_status _ = none

-- `errors.As` for an error with a body: `Error()` and `Body()` of the first one.
unfoldable pub api_body : Error → Option (Text × Text)
api_body (generic_error text body) = some (text, body)
api_body (api_error status e detail) = api_body e
api_body (wrap e) = api_body e
api_body (wrap2 e f) = first (api_body e) (api_body f)
api_body (wrap_text e text) = api_body e
api_body _ = none

-- `wrapAPIError`, called with the response's status (none for a nil response) and no body.
unfoldable pub wrap_api_error : Option ℕ → Error → Error
wrap_api_error none e = e
wrap_api_error (some status) e =
    api_error status e (elim (api_body e) [ none ↦ [] | some (text, body) ↦ trim_space body ])

abbrev in_range : ℤ → Option ℕ
in_range (pos n) = if leb 100 n && leb n 599 then some n else none
in_range (negsuc n) = none

unfoldable pub generic_status : Text → Option ℕ
generic_status text = elim (atoi (before_space text)) [ none ↦ none | some n ↦ in_range n ]

unfoldable pub with_api_body : Error → Text → Error
with_api_body e body =
    let detail = trim_space body in if is_empty detail then e else wrap_text e detail

unfoldable pub classify_status : ℕ → Error → Error
classify_status status e =
    if nat_eq status 429
    then temporary e
    else if leb 500 status
    then temporary e
    else if nat_eq status 408
    then temporary e
    else if leb 400 status
    then permanent_of e
    else temporary e

abbrev pub by_status : Option ℕ → Error → Text → Error
by_status none e body = temporary e
by_status (some status) e body = classify_status status (with_api_body e body)

abbrev pub by_body : Option (Text × Text) → Error → Error
by_body none e = temporary e
by_body (some (text, body)) e = by_status (generic_status text) e body

-- The end of `Classify`: an API error that was not wrapped, then everything else.
unfoldable pub classify_raw : Error → Error
classify_raw e = by_body (api_body e) e

abbrev pub by_api_status : Option ℕ → Error → Error
by_api_status none e = classify_raw e
by_api_status (some status) e = classify_status status e

unfoldable pub classify_api : Error → Error
classify_api e = by_api_status (api_status e) e

-- `Classify` of an error; of nil it is nil.
unfoldable pub classify : Error → Error
classify e =
    if is err_temporary e || is err_permanent e
    then e
    else if has_token_error e
    then wrap (sentinel err_permanent)
    else if is utils_zone_not_found e
    then wrap2 (sentinel err_permanent) (sentinel err_zone_not_found)
    else if is still_lock e
    then temporary e
    else if is label_limit e
    then permanent_of e
    else if is not_lock_holder e
    then temporary e
    else if is deadline_exceeded e || is canceled e
    then temporary e
    else classify_api e
