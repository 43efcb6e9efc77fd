-- ===== src/Webhook/Writing.antt =====
-- Lemmas on the routes of `NewHandler` of internal/webhook/handler.go: which request may change
-- records.
use external_dns_iij_dpf_web.Base.{
  Bool, Bool-cases, List, Option, [], ap, eq_list, eq_ℕ, false, inl, inr, refl, some, subst, true,
  ◌&&◌, ◌==◌, ◌∷◌, ◌≡◌, ◌≢◌,
}
use external_dns_iij_dpf_web.Base.Int.{eq_ℤ}
use external_dns_iij_dpf_web.Base.Text.{Text, codes}
use external_dns_iij_dpf_web.Calls.{Call}
use external_dns_iij_dpf_web.Dnsname.Name.{Dns, eq_name}
use external_dns_iij_dpf_web.Dnsname.Scope.{Scope}
use external_dns_iij_dpf_web.Dpf.Rrtype.{eq_rrtype}
use external_dns_iij_dpf_web.Dpf.Wire.{eq_merge_key}
use external_dns_iij_dpf_web.Mux.{
  Match, Pattern, match_pattern, matching, method_fits, method_not_allowed, not_found, other_method,
}
use external_dns_iij_dpf_web.Provider.Txt.{TxtCodec}
use external_dns_iij_dpf_web.Provider.Types.{ChangeSet}
use external_dns_iij_dpf_web.Telemetry.Metrics.{eq_attributes}
use external_dns_iij_dpf_web.Webhook.Negotiation.{ParseMedia, acceptable, negotiate}
use external_dns_iij_dpf_web.Webhook.Routes.{
  Decoder, Request, Route, Service, adjust_route, changes_route, records_route, root_route, routes,
  serve_match, serve_request, serve_route,
}
use mathlib.Core.List.{Memᴰ}

abbrev pub is_write : Request → Bool
is_write q = codes "POST" == q.method && codes "/records" == q.path

module _ {H : Type 0} where
  -- A pattern of the list is for the request, with the handler `h`.
  abbrev Fitting : List (Pattern H) → Text → Text → H → Type 0
  Fitting ps method path h =
      (p : Pattern H) × Memᴰ p ps
      × ((p.path == path) ≡ true)
      × (method_fits p.method method ≡ true)
      × (p.handler ≡ h)

  Fitting-tail :
      {p : Pattern H} {ps : List (Pattern H)} {method path : Text} {h : H}
      → Fitting ps method path h
      → Fitting (p ∷ ps) method path h
  Fitting-tail (q, m, y, f, e) = (q, Memᴰ.tail m, y, f, e)

  other_method-matching : (m : Match H) (h : H) → other_method m ≡ matching h → m ≡ matching h
  other_method-matching (matching x) h e = e
  other_method-matching method_not_allowed h e = cc e
  other_method-matching not_found h e = cc e

  match_pattern-Fitting :
      (ps : List (Pattern H)) (method path : Text) (h : H)
      → match_pattern ps method path ≡ matching h
      → Fitting ps method path h
  unfolding match_pattern
  match_pattern-Fitting [] method path h e = cc e
  match_pattern-Fitting (p ∷ ps) method path h e = elim (Bool-cases (p.path == path)) [
    | inl y ↦ elim (Bool-cases (method_fits p.method method)) [
      | inl f ↦ (p, Memᴰ.head refl, y, f, matching-injective (rw (y, f) at e))
      | inr k ↦ Fitting-tail (
          match_pattern-Fitting ps method path h
            (other_method-matching (match_pattern ps method path) h (rw (y, k) at e)))
    ]
    | inr n ↦ Fitting-tail (match_pattern-Fitting ps method path h (rw n at e))
  ]
    where
      matching-injective : {x y : H} → matching x ≡ matching y → x ≡ y
      matching-injective {x} e = ap (λ (m : Match H). elim m [ matching z ↦ z | _ ↦ x ]) e

abbrev is_changes : Route → Bool
is_changes changes_route = true
is_changes r = false

not_changes :
    (p q : Pattern Route) → p ≡ q → is_changes q.handler ≡ false → p.handler ≢ changes_route
not_changes p q e h k = cc (ap is_changes k, h, ap (λ (p : Pattern Route). is_changes p.handler) e)

of_changes :
    (p : Pattern Route)
    → Memᴰ p routes
    → p.handler ≡ changes_route
    → (p.path ≡ codes "/records") × (p.method ≡ some (codes "POST"))
of_changes p (Memᴰ.head e) h = absurd (not_changes p _ e refl h)
of_changes p (Memᴰ.tail (Memᴰ.head e)) h = absurd (not_changes p _ e refl h)
of_changes p (Memᴰ.tail (Memᴰ.tail (Memᴰ.head e))) h =
    (ap (λ (p : Pattern Route). p.path) e, ap (λ (p : Pattern Route). p.method) e)
of_changes p (Memᴰ.tail (Memᴰ.tail (Memᴰ.tail (Memᴰ.head e)))) h = absurd (not_changes p _ e refl h)
of_changes p (Memᴰ.tail (Memᴰ.tail (Memᴰ.tail (Memᴰ.tail m)))) h = elim m [ ]

match_pattern-changes :
    (method path : Text)
    → match_pattern routes method path ≡ matching changes_route
    → (codes "POST" == method && codes "/records" == path) ≡ true
match_pattern-changes method path h =
    let (p, m, y, f, k) = match_pattern-Fitting routes method path changes_route h in
    let (paths, methods) = of_changes p m k in
    let known : (codes "/records" == path) ≡ true =
      subst (λ (t : Text). (t == path) ≡ true) paths y in
    let fits : method_fits (some (codes "POST")) method ≡ true =
      subst (λ (o : Option Text). method_fits o method ≡ true) methods f in
    elim (Bool-cases (codes "POST" == method)) [
      | inl q ↦ rw (q, known) refl
      | inr n ↦ cc (rw n at fits)
    ]

module _ {W : Type 0} (d : Dns) (t : TxtCodec) (json : Decoder) (scope : Scope)
    (service : Service W) (other : ChangeSet → Call W (Unit {0})) where
  serve_match-other :
      (m : Match Route) (q : Request) (w : W)
      → m ≢ matching changes_route
      → serve_match d t json scope (record service { apply_changes = other }) m q w
        ≡ serve_match d t json scope service m q w
  unfolding serve_route
  serve_match-other (matching root_route) q w n = refl
  serve_match-other (matching records_route) q w n = refl
  serve_match-other (matching changes_route) q w n = absurd (n refl)
  serve_match-other (matching adjust_route) q w n = refl
  serve_match-other method_not_allowed q w n = refl
  serve_match-other not_found q w n = refl

  -- Whatever a request asks for that is not POST /records, nothing is applied for it: with any other
  -- ApplyChanges of the provider the answer is the same, and so is the state behind it.
  pub serve_request-other :
      (parse_media : ParseMedia) (q : Request) (w : W)
      → is_write q ≡ false
      → serve_request d t json scope (record service { apply_changes = other }) parse_media q w
        ≡ serve_request d t json scope service parse_media q w
  unfolding serve_request negotiate
  serve_request-other parse_media q w h = elim (Bool-cases (acceptable parse_media q.accept)) [
    | inl y ↦
        rw
          (
            y,
            serve_match-other (match_pattern routes q.method q.path) q w
                (λ e. cc (match_pattern-changes q.method q.path e, h)),
          )
          refl
    | inr n ↦ rw n refl
  ]
