-- ===== src/Telemetry/Stopping.antt =====
-- Lemmas on `New` and `Shutdown` of internal/telemetry/telemetry.go.
use external_dns_iij_dpf_web.Base.{
  Bool, Bool-cases, List, [], ap, false, if◌then◌else◌, inl, inr, refl, sym, ◌++◌, ◌∙◌, ◌∷◌, ◌≡◌,
}
use external_dns_iij_dpf_web.Base.Text.{Text}
use external_dns_iij_dpf_web.Calls.{Call, and_then-eq-ok, pure-eq-ok, wrapping}
use external_dns_iij_dpf_web.Config.Settings.{TelemetrySettings, otlp_enabled}
use external_dns_iij_dpf_web.Errors.{ok}
use external_dns_iij_dpf_web.Telemetry.Metrics.{new_metrics}
use external_dns_iij_dpf_web.Telemetry.Setup.{
  Measuring, Otel, Protocol, Signal, Telemetry, Tracing, init_metrics, init_tracing, measuring,
  metrics_signal, new_exporter, new_telemetry, shutdown_telemetry, stop_all, traces_signal,
}
use external_dns_iij_dpf_web.Telemetry.Slog.{Logger}

module _ {S : Type 0} (o : Otel S) (cfg : TelemetrySettings) where
  -- Without an endpoint no exporter is asked for: whatever the exporters would do, telemetry is built
  -- alike, and it is not sent.
  new_telemetry-without_exporter :
      (e : Signal → Protocol → Text → Bool → Call S (Unit {0})) (s : S)
      → otlp_enabled cfg ≡ false
      → new_telemetry (record o { exporter = e }) cfg s ≡ new_telemetry o cfg s
  unfolding new_telemetry init_metrics init_tracing
  new_telemetry-without_exporter e s h = rw h refl

-- What the calls of `stop` leave, one after the other.
abbrev pub stopped : {S : Type 0} → Otel S → List Signal → S → S
stopped o [] s = s
stopped o (signal ∷ more) s = stopped o more (o.stop signal s).1

module _ {S L : Type 0} (o : Otel S) (logger : Logger L) where
  pub stop_all-stopped :
      (signals : List Signal) (s : S) (l : L)
      → (stop_all o logger signals (s, l)).0 ≡ stopped o signals s
  unfolding stop_all
  stop_all-stopped [] s l = refl
  stop_all-stopped (signal ∷ more) s l = stop_all-stopped more (o.stop signal s).1 _

-- The providers that a telemetry of the settings has.
abbrev pub providers : TelemetrySettings → List Signal
providers cfg =
    if otlp_enabled cfg then metrics_signal ∷ traces_signal ∷ [] else metrics_signal ∷ []

module _ {S : Type 0} (o : Otel S) (cfg : TelemetrySettings) where
  measuring-shutdown :
      (signals : List Signal) (s s' : S) {m : Measuring}
      → measuring o cfg signals s ≡ (ok m, s')
      → m.shutdown ≡ signals ++ metrics_signal ∷ []
  unfolding measuring
  measuring-shutdown signals s s' h =
      let (made, t, x, l) = and_then-eq-ok (new_metrics o.instrument) _ s s' h in
      ap (λ (m : Measuring). m.shutdown) (sym (pure-eq-ok l).0)

  init_metrics-shutdown :
      (signals : List Signal) (s s' : S) {m : Measuring}
      → init_metrics o cfg signals s ≡ (ok m, s')
      → m.shutdown ≡ signals ++ metrics_signal ∷ []
  unfolding init_metrics
  init_metrics-shutdown signals s s' h =
      let (u, t, e, k) = and_then-eq-ok (wrapping o.prometheus) _ s s' h in
      elim (Bool-cases (otlp_enabled cfg)) [
        | inl y ↦
            let (v, w, x, l) =
              and_then-eq-ok (new_exporter o cfg metrics_signal) _ t s' (rw y at k) in
            measuring-shutdown signals w s' l
        | inr n ↦ measuring-shutdown signals t s' (rw n at k)
      ]

  init_tracing-shutdown :
      (signals : List Signal) (s s' : S) {r : Tracing}
      → init_tracing o cfg signals s ≡ (ok r, s')
      → r.shutdown ≡ (if otlp_enabled cfg then signals ++ traces_signal ∷ [] else signals)
  unfolding init_tracing
  init_tracing-shutdown signals s s' h = elim (Bool-cases (otlp_enabled cfg)) [
    | inl y ↦
        let (v, t, x, l) = and_then-eq-ok (new_exporter o cfg traces_signal) _ s s' (rw y at h) in
        rw y (ap (λ (r : Tracing). r.shutdown) (sym (pure-eq-ok l).0))
    | inr n ↦ rw n (ap (λ (r : Tracing). r.shutdown) (sym (pure-eq-ok (rw n at h)).0))
  ]

  pub new_telemetry-providers :
      (s s' : S) {t : Telemetry} → new_telemetry o cfg s ≡ (ok t, s') → t.shutdown ≡ providers cfg
  unfolding new_telemetry
  new_telemetry-providers s s' h =
      let (u, s₁, e₁, h₁) = and_then-eq-ok (wrapping o.resource) _ s s' h in
      let (m, s₂, e₂, h₂) = and_then-eq-ok (init_metrics o cfg []) _ s₁ s' h₁ in
      let (r, s₃, e₃, h₃) = and_then-eq-ok (init_tracing o cfg m.shutdown) _ s₂ s' h₂ in
      ap (λ (t : Telemetry). t.shutdown) (sym (pure-eq-ok h₃).0)
      ∙ init_tracing-shutdown m.shutdown s₂ s₃ e₃
      ∙ ap
          (λ (signals : List Signal).
            if otlp_enabled cfg then signals ++ traces_signal ∷ [] else signals)
          (init_metrics-shutdown [] s₁ s₂ e₂)

  -- Behind a successful `New`, `Shutdown` succeeds whatever becomes of sending: it stops the provider
  -- of the metrics, and then, where an endpoint is set, that of the traces, even if the first one
  -- fails.
  pub shutdown_telemetry-stopped :
      {L : Type 0} (logger : Logger L) (s s' now : S) (l : L) {t : Telemetry}
      → new_telemetry o cfg s ≡ (ok t, s')
      → ((shutdown_telemetry o logger t (now, l)).0 ≡ ok tt)
        × (((shutdown_telemetry o logger t (now, l)).1).0 ≡ stopped o (providers cfg) now)
  unfolding shutdown_telemetry
  shutdown_telemetry-stopped logger s s' now l {t} h = (
    refl,
    stop_all-stopped o logger t.shutdown now l
        ∙ ap (λ (signals : List Signal). stopped o signals now) (new_telemetry-providers s s' h),
  )
