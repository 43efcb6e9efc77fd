-- ===== src/Webhook/Negotiation.antt =====
-- internal/webhook/negotiation.go: whether the Accept header can be met. `mime.ParseMediaType` is
-- a parameter.
use external_dns_iij_dpf_web.Base.{
  Bool, List, Option, [], eq_list, eq_ℕ, false, if◌then◌else◌, is_empty, lookup, nat_eq, none, not,
  some, true, ℕ, ◌==◌, ◌||◌, ◌∷◌,
}
use external_dns_iij_dpf_web.Base.Int.{eq_ℤ}
use external_dns_iij_dpf_web.Base.Text.{Text, codes, trim_space}
use external_dns_iij_dpf_web.Dnsname.Name.{eq_name}
use external_dns_iij_dpf_web.Dpf.Rrtype.{eq_rrtype}
use external_dns_iij_dpf_web.Dpf.Wire.{eq_merge_key}
use external_dns_iij_dpf_web.Telemetry.Metrics.{eq_attributes}
use external_dns_iij_dpf_web.Webhook.Handler.{
  Body, Response, endpoints_body, error_text, filters_body, no_body, status_text,
}

-- The type and the parameters of a media type, none where it does not parse.
abbrev pub ParseMedia : Type 0
ParseMedia = Text → Option (Text × List (Text × Text))

abbrev pub media_type : Text
media_type = codes "application/external.dns.webhook+json;version=1"

abbrev pub media_type_base : Text
media_type_base = codes "application/external.dns.webhook+json"

abbrev pub media_type_version : Text
media_type_version = codes "1"

abbrev pub comma : ℕ
comma = 44

abbrev pub on_first : ℕ → List Text → List Text
on_first c [] = (c ∷ []) ∷ []
on_first c (s ∷ ss) = (c ∷ s) ∷ ss

-- `strings.Split` at commas: at least one part.
unfoldable pub split_commas : Text → List Text
split_commas [] = [] ∷ []
split_commas (c ∷ s) =
    let rest = split_commas s in if nat_eq c comma then [] ∷ rest else on_first c rest

-- The parameter `version` is not there, or is the one that is served.
abbrev pub version_fits : Option Text → Bool
version_fits none = true
version_fits (some v) = v == media_type_version

abbrev pub media_fits : Option (Text × List (Text × Text)) → Bool
media_fits none = false
media_fits (some (typ, params)) =
    if typ == codes "*/*" || typ == codes "application/*"
    then true
    else if not (typ == media_type_base)
    then false
    else version_fits (lookup (codes "version") params)

-- The content type of an answer: `Negotiate` has set the API's, and `http.Error` sets its own.
abbrev pub content_type : Body → Text
content_type (filters_body fs) = media_type
content_type (endpoints_body es) = media_type
content_type no_body = media_type
content_type status_text = codes "text/plain; charset=utf-8"
content_type (error_text s) = codes "text/plain; charset=utf-8"

abbrev pub typed : Response → Text × Response
typed answer = (content_type answer.body, answer)

module _ (parse_media : ParseMedia) where
  -- One round of the loop of `acceptable`: it returns true.
  unfoldable pub entry_fits : Text → Bool
  entry_fits part =
      if is_empty (trim_space part) then false else media_fits (parse_media (trim_space part))

  unfoldable pub any_fits : List Text → Bool
  unfolding entry_fits
  any_fits [] = false
  any_fits (part ∷ parts) = let rest = any_fits parts in if entry_fits part then true else rest

  unfoldable pub acceptable : Text → Bool
  unfolding any_fits split_commas
  acceptable accept = if is_empty (trim_space accept) then true else any_fits (split_commas accept)

  -- `Negotiate`: a refusal with 406, or what the next handler answers, under the content type that
  -- it has then.
  unfoldable pub negotiate : {W : Type 0} → Text → (W → Response × W) → W → (Text × Response) × W
  unfolding acceptable
  negotiate accept next w =
      if not (acceptable accept)
      then (typed (record { status = 406; body = error_text (codes "unsupported media type") }), w)
      else (let (answer, w') = next w in (typed answer, w'))
