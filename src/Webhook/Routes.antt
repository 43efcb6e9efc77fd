-- ===== src/Webhook/Routes.antt =====
-- internal/webhook/handler.go: `NewHandler`, from a request to its answer. The JSON decoder is a
-- parameter: what it makes of a body, none where it fails.
use external_dns_iij_dpf_web.Base.{List, Option, [], some, ◌∷◌}
use external_dns_iij_dpf_web.Base.Text.{Text, codes}
use external_dns_iij_dpf_web.Calls.{Call}
use external_dns_iij_dpf_web.Dnsname.Name.{Dns}
use external_dns_iij_dpf_web.Dnsname.Scope.{Scope}
use external_dns_iij_dpf_web.Mux.{
  Match, Pattern, match_pattern, matching, method_not_allowed, not_found,
}
use external_dns_iij_dpf_web.Provider.Apply.{Part}
use external_dns_iij_dpf_web.Provider.Observed.{Provider, World, observed_changes, observed_records}
use external_dns_iij_dpf_web.Provider.Txt.{TxtCodec}
use external_dns_iij_dpf_web.Provider.Types.{ChangeSet, Record}
use external_dns_iij_dpf_web.Webhook.Body.{Reader, log_request_body}
use external_dns_iij_dpf_web.Webhook.Handler.{
  Response, error_text, get_records, get_root, post_adjust_endpoints, post_records, status_text,
}
use external_dns_iij_dpf_web.Webhook.Negotiation.{ParseMedia, negotiate}
use external_dns_iij_dpf_web.Webhook.Wire.{Changes, Endpoint}

pub record Request : Type 0 where
  pub method : Text
  pub path : Text
  pub accept : Text
  pub body : Reader

pub record Decoder : Type 0 where
  pub changes : Reader → Option Changes
  pub endpoints : Reader → Option (List Endpoint)

pub data Route : Type 0 where
  root_route records_route changes_route adjust_route : Route

abbrev get : Text → Route → Pattern Route
get path r = record { method = some (codes "GET"); path = path; handler = r }

abbrev post : Text → Route → Pattern Route
post path r = record { method = some (codes "POST"); path = path; handler = r }

abbrev pub routes : List (Pattern Route)
routes =
    get (codes "/") root_route
    ∷ get (codes "/records") records_route
    ∷ post (codes "/records") changes_route
    ∷ post (codes "/adjustendpoints") adjust_route
    ∷ []

-- What the handlers call of the provider, and the reader that they are left with where a body is
-- logged.
pub record Service (W : Type 0) : Type 0 where
  pub records : Call W (List Record)
  pub apply_changes : ChangeSet → Call W (Unit {0})
  pub log_request_body : Text → Reader → W → Reader × W

module _ {W : Type 0} (d : Dns) (t : TxtCodec) (json : Decoder) (scope : Scope)
    (service : Service W) where
  unfoldable pub serve_route : Route → Request → W → Response × W
  serve_route root_route q w = (get_root d scope, w)
  serve_route records_route q w = get_records d service.records w
  serve_route changes_route q w =
      let (body, w') = service.log_request_body q.path q.body w in
      post_records d service.apply_changes (json.changes body) w'
  serve_route adjust_route q w = (post_adjust_endpoints d t (json.endpoints q.body), w)

  abbrev pub serve_match : Match Route → Request → W → Response × W
  serve_match (matching r) q w = serve_route r q w
  serve_match method_not_allowed q w = (record { status = 405; body = status_text }, w)
  serve_match not_found q w =
      (record { status = 404; body = error_text (codes "404 page not found") }, w)

  unfoldable pub serve_request : ParseMedia → Request → W → (Text × Response) × W
  unfolding serve_route
  serve_request parse_media q w =
      negotiate parse_media q.accept (serve_match (match_pattern routes q.method q.path) q) w

module _ {S L R : Type 0} (d : Dns) (t : TxtCodec) (p : Provider S L R)
    (order : R → ChangeSet → List Part) where
  -- The provider, with its logs and metrics.
  unfoldable pub provider_service : Service (World S L R)
  unfolding observed_records observed_changes
  provider_service = record {
    records = observed_records d p order;
    apply_changes = observed_changes d p order t;
    log_request_body = λ path r w.
        let (r', l) = log_request_body p.logger path r w.lines in (r', record w { lines = l });
  }

  unfoldable pub new_handler :
      Decoder → ParseMedia → Request → World S L R → (Text × Response) × World S L R
  unfolding provider_service serve_request
  new_handler json parse_media = serve_request d t json p.scope provider_service parse_media
