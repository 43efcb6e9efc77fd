-- ===== src/Webhook/Succeeding.antt =====
-- Lemmas on the status 204 of `postRecords` of internal/webhook/handler.go.
use external_dns_iij_dpf_web.Base.{
  Bool-cases, List, Option, ap, arith, inl, inr, none, refl, some, subst, sym, ◌∙◌, ◌≡◌, ◌≢◌,
}
use external_dns_iij_dpf_web.Base.Text.{Text}
use external_dns_iij_dpf_web.Calls.{Call}
use external_dns_iij_dpf_web.Dnsname.Name.{Dns}
use external_dns_iij_dpf_web.Dpf.Apply.{apply}
use external_dns_iij_dpf_web.Dpf.Published.{behind}
use external_dns_iij_dpf_web.Errors.{Error, Result, Result-cases, err, ok}
use external_dns_iij_dpf_web.Mux.{Match, match_pattern, matching, method_not_allowed, not_found}
use external_dns_iij_dpf_web.Provider.Apply.{Part, apply_changes}
use external_dns_iij_dpf_web.Provider.Observed.{Provider, World}
use external_dns_iij_dpf_web.Provider.Service.{records}
use external_dns_iij_dpf_web.Provider.Txt.{TxtCodec}
use external_dns_iij_dpf_web.Provider.Types.{ChangeSet, Record}
use external_dns_iij_dpf_web.Webhook.Handler.{
  Response, applied, get_records, get_root, listed, post_adjust_endpoints, post_records, posted,
  undecodable,
}
use external_dns_iij_dpf_web.Webhook.Negotiation.{ParseMedia, acceptable, negotiate}
use external_dns_iij_dpf_web.Webhook.Routes.{
  Decoder, Request, Route, adjust_route, changes_route, new_handler, records_route, root_route,
  routes, serve_match, serve_request, serve_route,
}
use external_dns_iij_dpf_web.Webhook.Served.{IsReadable, new_handler-serve_request, plain_service}
use external_dns_iij_dpf_web.Webhook.Status.{status_for}
use external_dns_iij_dpf_web.Webhook.Wire.{Changes, Endpoint, to_change_set, to_records}

not_204 : (e : Error) → status_for e ≢ 204
unfolding status_for
not_204 e h = ground (arith, h)

module _ {W : Type 0} (d : Dns) where
  listed-not_204 : (p : Result (List Record) × W) → (listed d p).0.status ≢ 204
  listed-not_204 (ok rs, w) h = omega (arith, h)
  listed-not_204 (err e, w) h = not_204 e h

  applied-204 :
      (p : Result (Unit {0}) × W) → (applied d p).0.status ≡ 204 → p ≡ (ok tt, (applied d p).1)
  applied-204 (ok u, w) h = refl
  applied-204 (err e, w) h = absurd (not_204 e h)

  posted-204 :
      (apply : ChangeSet → Call W (Unit {0})) (r : Result ChangeSet) (w : W)
      → (posted d apply r w).0.status ≡ 204
      → (cs : ChangeSet) × (r ≡ ok cs) × (apply cs w ≡ (ok tt, (posted d apply r w).1))
  posted-204 apply (ok cs) w h = (cs, refl, applied-204 (apply cs w) h)
  posted-204 apply (err e) w h = absurd (not_204 e h)

  post_records-204 :
      (apply : ChangeSet → Call W (Unit {0})) (o : Option Changes) (w : W)
      → (post_records d apply o w).0.status ≡ 204
      → (c : Changes) × (cs : ChangeSet) × (o ≡ some c)
        × (to_change_set d c ≡ ok cs)
        × (apply cs w ≡ (ok tt, (post_records d apply o w).1))
  unfolding post_records
  post_records-204 apply none w h = absurd (not_204 undecodable h)
  post_records-204 apply (some c) w h =
      let (cs, e, done) = posted-204 apply (to_change_set d c) w h in (c, cs, refl, e, done)

post_adjust_endpoints-not_204 :
    (d : Dns) (t : TxtCodec) (o : Option (List Endpoint))
    → (post_adjust_endpoints d t o).status ≢ 204
unfolding post_adjust_endpoints
post_adjust_endpoints-not_204 d t none h = not_204 undecodable h
post_adjust_endpoints-not_204 d t (some es) h = elim (Result-cases (to_records d es)) [
  | inl (rs, e) ↦ omega (arith, rw (e, post_adjust_endpoints) at h)
  | inr (f, e) ↦ not_204 f (rw (e, post_adjust_endpoints) at h)
]

module _ {S L R : Type 0} (d : Dns) (t : TxtCodec) (p : Provider S L R)
    (order : R → ChangeSet → List Part) (json : Decoder) where
  -- The body of the request is a change set, and the backend has gone through the apply of it.
  abbrev pub Done : Request → S → S → Type 0
  Done q s s' =
      (c : Changes) × (cs : ChangeSet) × (json.changes q.body ≡ some c)
      × (to_change_set d c ≡ ok cs)
      × (apply_changes d t p.scope p.backend cs s ≡ (ok tt, s'))

  serve_match-Done :
      (m : Match Route) (q : Request) (s : S)
      → (serve_match d t json p.scope (plain_service d t p.scope p.backend) m q s).0.status ≡ 204
      → Done q s (serve_match d t json p.scope (plain_service d t p.scope p.backend) m q s).1
  unfolding serve_route
  serve_match-Done (matching root_route) q s h = absurd (unfold get_root in omega (arith, h))
  serve_match-Done (matching records_route) q s h =
      absurd (listed-not_204 d (records d p.scope p.backend s) (unfold get_records in h))
  serve_match-Done (matching changes_route) q s h =
      post_records-204 d (apply_changes d t p.scope p.backend) (json.changes q.body) s h
  serve_match-Done (matching adjust_route) q s h =
      absurd (post_adjust_endpoints-not_204 d t (json.endpoints q.body) h)
  serve_match-Done method_not_allowed q s h = absurd (omega (arith, h))
  serve_match-Done not_found q s h = absurd (omega (arith, h))

  serve_request-Done :
      (parse_media : ParseMedia) (q : Request) (s : S)
      → (serve_request d t json p.scope
          (plain_service d t p.scope p.backend)
          parse_media
          q
          s).0.1.status
        ≡ 204
      → Done q s
          (serve_request d t json p.scope (plain_service d t p.scope p.backend) parse_media q s).1
  unfolding serve_request negotiate
  serve_request-Done parse_media q s h = elim (Bool-cases (acceptable parse_media q.accept)) [
    | inl y ↦ rw y (serve_match-Done (match_pattern routes q.method q.path) q s (rw y at h))
    | inr n ↦ absurd (omega (arith, rw n at h))
  ]

  -- Success is answered to nothing but a change set that has been applied: if the status is 204, the
  -- body decodes to a change set whose apply by ApplyChanges has succeeded, and the backend is as it
  -- left it; if the body of the request ends without an error or is longer than what is read for the
  -- log.
  pub new_handler-Done :
      (parse_media : ParseMedia) (q : Request) (w : World S L R)
      → IsReadable d t p order q
      → (new_handler d t p order json parse_media q w).0.1.status ≡ 204
      → Done q w.behind ((new_handler d t p order json parse_media q w).1).behind
  new_handler-Done parse_media q w h done =
      let (answer, behind) = new_handler-serve_request d t p order json parse_media q w h in
      subst (λ (s : S). Done q w.behind s) (sym behind)
        (serve_request-Done parse_media q w.behind
          (ap (λ (a : Text × Response). (a.1).status) (sym answer) ∙ done))
