-- ===== src/Webhook/Served.antt =====
-- Lemmas on `NewHandler` of internal/webhook/handler.go: what its logs and metrics decide.
use external_dns_iij_dpf_web.Base.{
  Bool-cases, List, Option, ap, inl, inr, length, none, refl, some, ◌<◌, ◌≡◌, ◌⊎◌,
}
use external_dns_iij_dpf_web.Dnsname.Name.{Dns}
use external_dns_iij_dpf_web.Dnsname.Scope.{Scope}
use external_dns_iij_dpf_web.Errors.{Result, err, ok}
use external_dns_iij_dpf_web.Mux.{Match, match_pattern, matching, method_not_allowed, not_found}
use external_dns_iij_dpf_web.Provider.Apply.{Part, apply_changes}
use external_dns_iij_dpf_web.Provider.Backend.{Backend}
use external_dns_iij_dpf_web.Provider.Observed.{Provider, World, observed_changes, observed_records}
use external_dns_iij_dpf_web.Provider.Observing.{
  observed_changes-apply_changes, observed_records-records,
}
use external_dns_iij_dpf_web.Provider.Service.{records}
use external_dns_iij_dpf_web.Provider.Txt.{TxtCodec}
use external_dns_iij_dpf_web.Provider.Types.{ChangeSet, Record}
use external_dns_iij_dpf_web.Webhook.Body.{log_request_body, request_log_limit}
use external_dns_iij_dpf_web.Webhook.Handler.{applied, get_records, listed, post_records, posted}
use external_dns_iij_dpf_web.Webhook.Negotiation.{ParseMedia, acceptable, negotiate, typed}
use external_dns_iij_dpf_web.Webhook.Rereading.{log_request_body-keeps}
use external_dns_iij_dpf_web.Webhook.Routes.{
  Decoder, Request, Route, Service, adjust_route, changes_route, new_handler, provider_service,
  records_route, root_route, routes, serve_match, serve_request, serve_route,
}
use external_dns_iij_dpf_web.Webhook.Wire.{Changes, to_change_set}

-- The provider without logs and metrics.
abbrev pub plain_service : {S : Type 0} → Dns → TxtCodec → Scope → Backend S → Service S
plain_service d t scope b = record {
  records = records d scope b;
  apply_changes = apply_changes d t scope b;
  log_request_body = λ path r s. (r, s);
}

module _ {S L R : Type 0} (d : Dns) (t : TxtCodec) (p : Provider S L R)
    (order : R → ChangeSet → List Part) where
  -- One answer, and one state of the backend behind it.
  abbrev Alike : {A : Type 0} → A × World S L R → A × S → Type 0
  Alike x y = (x.0 ≡ y.0) × ((x.1).behind ≡ y.1)

  get_records-Alike :
      (w : World S L R)
      → Alike
          (get_records d (observed_records d p order) w)
          (get_records d (records d p.scope p.backend) w.behind)
  unfolding get_records
  get_records-Alike w =
      let (answer, behind) = observed_records-records d p order w in
      (ap (λ (r : Result (List Record)). (listed {W = S} d (r, w.behind)).0) answer, behind)

  posted-Alike :
      (r : Result ChangeSet) (w : World S L R)
      → Alike
          (posted d (observed_changes d p order t) r w)
          (posted d (apply_changes d t p.scope p.backend) r w.behind)
  posted-Alike (err e) w = (refl, refl)
  posted-Alike (ok cs) w =
      let (answer, behind) = observed_changes-apply_changes d p order t cs w in
      (ap (λ (r : Result (Unit {0})). (applied {W = S} d (r, w.behind)).0) answer, behind)

  post_records-Alike :
      (o : Option Changes) (w : World S L R)
      → Alike
          (post_records d (observed_changes d p order t) o w)
          (post_records d (apply_changes d t p.scope p.backend) o w.behind)
  unfolding post_records
  post_records-Alike none w = (refl, refl)
  post_records-Alike (some c) w = posted-Alike (to_change_set d c) w

  -- The body ends without an error, or is longer than what is read for the log.
  abbrev pub IsReadable : Request → Type 0
  IsReadable q = (q.body.ending ≡ none) ⊎ (request_log_limit < length q.body.bytes)

  serve_route-Alike :
      (json : Decoder) (r : Route) (q : Request) (w : World S L R)
      → IsReadable q
      → Alike
          (serve_route d t json p.scope (provider_service d t p order) r q w)
          (serve_route d t json p.scope (plain_service d t p.scope p.backend) r q w.behind)
  unfolding serve_route provider_service
  serve_route-Alike json root_route q w h = (refl, refl)
  serve_route-Alike json records_route q w h = get_records-Alike w
  serve_route-Alike json changes_route q w h =
      rw (log_request_body-keeps p.logger q.path q.body w.lines h) (
        post_records-Alike (json.changes q.body)
          (record w { lines = (log_request_body p.logger q.path q.body w.lines).1 }))
  serve_route-Alike json adjust_route q w h = (refl, refl)

  serve_match-Alike :
      (json : Decoder) (m : Match Route) (q : Request) (w : World S L R)
      → IsReadable q
      → Alike
          (serve_match d t json p.scope (provider_service d t p order) m q w)
          (serve_match d t json p.scope (plain_service d t p.scope p.backend) m q w.behind)
  serve_match-Alike json (matching r) q w h = serve_route-Alike json r q w h
  serve_match-Alike json method_not_allowed q w h = (refl, refl)
  serve_match-Alike json not_found q w h = (refl, refl)

  -- Logging and measuring, the log of a body included, decide nothing of the answer to a request:
  -- whatever the logger and the recorder do, and in whatever order the map of operations is gone
  -- through, the status, the content type and the body are those without logs and metrics, and so is
  -- what the backend is asked; if the body of the request ends without an error or is longer than
  -- what is read for the log.
  pub new_handler-serve_request :
      (json : Decoder) (parse_media : ParseMedia) (q : Request) (w : World S L R)
      → IsReadable q
      → Alike (new_handler d t p order json parse_media q w) (
          serve_request d t json p.scope
            (plain_service d t p.scope p.backend)
            parse_media
            q
            w.behind)
  unfolding new_handler serve_request negotiate
  new_handler-serve_request json parse_media q w h =
      elim (Bool-cases (acceptable parse_media q.accept)) [
        | inl y ↦
            let (answer, behind) =
              serve_match-Alike json (match_pattern routes q.method q.path) q w h in
            rw y (ap typed answer, behind)
        | inr n ↦ rw n (refl, refl)
      ]
