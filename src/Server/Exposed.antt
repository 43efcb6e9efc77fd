-- ===== src/Server/Exposed.antt =====
-- internal/server/server.go: `exposedMux`. The handler of /metrics is an argument, none for nil; a
-- handler acts on a state and answers with a status code and a body.
use external_dns_iij_dpf_web.Base.{
  List, Option, [], arith, eq_list, eq_ℕ, if◌then◌else◌, none, some, ℕ, ◌++◌, ◌==◌, ◌∷◌, ◌≡◌,
}
use external_dns_iij_dpf_web.Base.Int.{eq_ℤ}
use external_dns_iij_dpf_web.Base.Text.{Text, codes}
use external_dns_iij_dpf_web.Dnsname.Name.{eq_name}
use external_dns_iij_dpf_web.Dpf.Rrtype.{eq_rrtype}
use external_dns_iij_dpf_web.Dpf.Wire.{eq_merge_key}
use external_dns_iij_dpf_web.Mux.{
  Match, Pattern, match_pattern, matching, method_not_allowed, not_found,
}
use external_dns_iij_dpf_web.Telemetry.Metrics.{eq_attributes}

abbrev Handler : Type 0 → Type 0
Handler W = W → (ℕ × Text) × W

module _ {W : Type 0} where
  abbrev healthz : Handler W
  healthz w = ((200, codes "ok" ++ 10 ∷ []), w)

  abbrev metrics_pattern : Option (Handler W) → List (Pattern (Handler W))
  metrics_pattern none = []
  metrics_pattern (some h) = record { method = none; path = codes "/metrics"; handler = h } ∷ []

  abbrev exposed_mux : Option (Handler W) → List (Pattern (Handler W))
  exposed_mux metrics =
      record { method = none; path = codes "/healthz"; handler = healthz } ∷ metrics_pattern metrics

  abbrev exposed_match : Match (Handler W) → Handler W
  exposed_match (matching h) w = h w
  exposed_match method_not_allowed w = ((405, codes "Method Not Allowed"), w)
  exposed_match not_found w = ((404, codes "404 page not found"), w)

  unfoldable serve_exposed : Option (Handler W) → Text → Text → Handler W
  unfolding match_pattern
  serve_exposed metrics method path =
      exposed_match (match_pattern (exposed_mux metrics) method path)

  -- The exposed listener answers under two paths and no other: whatever the method, /healthz says
  -- nothing but "ok", and what is not /metrics, or where there are no metrics, is not found.
  serve_exposed-eq :
      (metrics : Option (Handler W)) (method path : Text) (w : W)
      → serve_exposed metrics method path w ≡ (
          if codes "/healthz" == path
          then healthz w
          else if codes "/metrics" == path
          then (elim metrics [ none ↦ exposed_match not_found w | some h ↦ h w ])
          else exposed_match not_found w)
  unfolding serve_exposed match_pattern
  serve_exposed-eq none method path w = ground arith
  serve_exposed-eq (some h) method path w = ground arith
