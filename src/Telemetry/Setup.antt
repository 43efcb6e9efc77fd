-- ===== src/Telemetry/Setup.antt =====
-- internal/telemetry/telemetry.go: how telemetry is built and stopped. OpenTelemetry and the
-- Prometheus exporter are the record Otel; the handler of /metrics is theirs.
use external_dns_iij_dpf_web.Base.{
  Bool, List, [], eq_list, eq_ℕ, if◌then◌else◌, not, ◌++◌, ◌==◌, ◌∷◌,
}
use external_dns_iij_dpf_web.Base.Int.{eq_ℤ}
use external_dns_iij_dpf_web.Base.Text.{Text, codes}
use external_dns_iij_dpf_web.Calls.{Call, and_then, pure, wrapping}
use external_dns_iij_dpf_web.Config.Settings.{TelemetrySettings, otlp_enabled, warn_level}
use external_dns_iij_dpf_web.Dnsname.Name.{eq_name}
use external_dns_iij_dpf_web.Errors.{Error, Result, err, ok}
use external_dns_iij_dpf_web.Server.Lifecycle.{shutdown}
use external_dns_iij_dpf_web.Telemetry.Metrics.{Metrics, eq_attributes, new_metrics}
use external_dns_iij_dpf_web.Telemetry.Slog.{LogRecord, Logger, error_value, fields_of}

abbrev pub service_name : Text
service_name = codes "external-dns-iij-dpf-webhook"

pub data Signal : Type 0 where
  metrics_signal traces_signal : Signal

pub data Protocol : Type 0 where
  http_protocol grpc_protocol : Protocol

-- What New and Shutdown call: each call acts on the state behind the libraries. `exporter` makes the
-- OTLP exporter of a signal, for an endpoint, with or without TLS, and `stop` is a provider's
-- `Shutdown`.
pub record Otel (S : Type 0) : Type 0 where
  pub resource : Call S (Unit {0})
  pub prometheus : Call S (Unit {0})
  pub exporter : Signal → Protocol → Text → Bool → Call S (Unit {0})
  pub instrument : Text → Call S (Unit {0})
  pub stop : Signal → Call S (Unit {0})

-- `trace.Tracer`: the global one, which records nothing, or that of the provider.
pub data Tracer : Type 0 where
  global_tracer exporting_tracer : Tracer

-- `shutdown` are the providers whose `Shutdown` is to be called.
pub record Telemetry : Type 0 where
  pub metrics : Metrics
  pub tracer : Tracer
  pub shutdown : List Signal
  pub otlp_enabled : Bool
  pub otlp_insecure : Bool

-- What `initMetrics` sets.
pub record Measuring : Type 0 where
  pub metrics : Metrics
  pub shutdown : List Signal

-- What `initTracing` sets.
pub record Tracing : Type 0 where
  pub tracer : Tracer
  pub shutdown : List Signal

abbrev pub protocol_of : Text → Protocol
protocol_of p = if p == codes "http" then http_protocol else grpc_protocol

module _ {S : Type 0} (o : Otel S) (cfg : TelemetrySettings) where
  -- Both `newOTLPMetricReader` and the middle of `initTracing`.
  unfoldable pub new_exporter : Signal → Call S (Unit {0})
  new_exporter signal =
      wrapping
        (o.exporter signal (protocol_of cfg.otlp_protocol) cfg.otlp_endpoint cfg.otlp_insecure)

  -- The end of `initMetrics`, behind the readers.
  unfoldable pub measuring : List Signal → Call S Measuring
  unfolding new_metrics
  measuring shutdown =
      and_then (new_metrics o.instrument)
        λ m. pure (record { metrics = m; shutdown = shutdown ++ metrics_signal ∷ [] })

  unfoldable pub init_metrics : List Signal → Call S Measuring
  unfolding new_exporter measuring
  init_metrics shutdown = and_then (wrapping o.prometheus) λ u.
      if otlp_enabled cfg
      then and_then (new_exporter metrics_signal) (λ v. measuring shutdown)
      else measuring shutdown

  unfoldable pub init_tracing : List Signal → Call S Tracing
  unfolding new_exporter
  init_tracing shutdown =
      if not (otlp_enabled cfg)
      then pure (record { tracer = global_tracer; shutdown = shutdown })
      else and_then (new_exporter traces_signal) λ u.
        pure (record { tracer = exporting_tracer; shutdown = shutdown ++ traces_signal ∷ [] })

  unfoldable pub new_telemetry : Call S Telemetry
  unfolding init_metrics init_tracing
  new_telemetry = and_then (wrapping o.resource) λ u. and_then (init_metrics []) λ m.
      and_then (init_tracing m.shutdown) λ t. pure (record {
        metrics = m.metrics;
        tracer = t.tracer;
        shutdown = t.shutdown;
        otlp_enabled = otlp_enabled cfg;
        otlp_insecure = cfg.otlp_insecure;
      })

abbrev pub stop_failed : Error → LogRecord
stop_failed e = record {
  level = warn_level;
  message = codes "テレメトリの停止処理に失敗しました。処理は続行します";
  attrs = fields_of ((codes "error", error_value e) ∷ []);
}

module _ {S L : Type 0} (o : Otel S) (logger : Logger L) where
  -- The loop of `Shutdown`. A failure is logged and dropped.
  unfoldable pub stop_all : List Signal → S × L → S × L
  stop_all [] p = p
  stop_all (signal ∷ more) (s, l) =
      let (answer, s') = o.stop signal s in
      stop_all more (s', elim answer [ ok u ↦ l | err e ↦ logger.write (stop_failed e) l ])

  unfoldable pub shutdown_telemetry : Telemetry → S × L → Result (Unit {0}) × (S × L)
  unfolding stop_all
  shutdown_telemetry t p = (ok tt, stop_all t.shutdown p)
