-- ===== src/Tests/Observed.antt =====
-- The theorems on logs, metrics and telemetry.
use Prim.Native.String.{String}
use external_dns_iij_dpf_web.Base.{
  List, [], false, if◌then◌else◌, inr, leb, refl, suc, true, ℕ, ◌&&◌, ◌++◌, ◌+◌, ◌∷◌, ◌≡◌,
}
use external_dns_iij_dpf_web.Base.Text.{codes}
use external_dns_iij_dpf_web.Calls.{pure}
use external_dns_iij_dpf_web.Config.Settings.{TelemetrySettings, info_level, warn_level}
use external_dns_iij_dpf_web.Errors.{err, ok, plain}
use external_dns_iij_dpf_web.Telemetry.Log.{new_logger, tee_handler, with_additional_sink}
use external_dns_iij_dpf_web.Telemetry.Metrics.{new_metrics, no_metrics}
use external_dns_iij_dpf_web.Telemetry.Redacted.{
  AlikeCalls, IsSecret, alike_adding, alike_end, alike_logging, alike_more, alike_next, alike_none,
  alike_opening, alike_value, log_calls-hides,
}
use external_dns_iij_dpf_web.Telemetry.Setup.{
  Otel, Signal, Telemetry, exporting_tracer, init_metrics, init_tracing, measuring, metrics_signal,
  new_exporter, new_telemetry, shutdown_telemetry, traces_signal,
}
use external_dns_iij_dpf_web.Telemetry.Slog.{
  HandlerOf, JsonHandler, LogCall, LogRecord, Logger, adding_attrs, fields_of, json_handler,
  log_calls, logging, no_attrs, opening_group, text_value,
}
use external_dns_iij_dpf_web.Telemetry.Stopping.{providers, shutdown_telemetry-stopped, stopped}
use external_dns_iij_dpf_web.Telemetry.Teed.{log_calls-tee_handler}
use mathlib.Core.List.{Memᴰ}

abbrev with_token : String → List LogCall
with_token value =
    opening_group (codes "dpf")
    ∷ adding_attrs (fields_of ((codes "API_Token", text_value (codes value)) ∷ []))
    ∷ logging (record { level = warn_level; message = codes "m"; attrs = no_attrs })
    ∷ []

-- Letters in upper case, in ASCII.
abbrev ascii_lower : ℕ → ℕ
ascii_lower c = if leb 65 c && leb c 90 then c + 32 else c

token-IsSecret : IsSecret ascii_lower (codes "API_Token")
token-IsSecret = (codes "token", Memᴰ.head refl, (codes "api_", [], refl))

with_token-AlikeCalls : AlikeCalls ascii_lower (with_token "s3cret") (with_token "other")
with_token-AlikeCalls = alike_next alike_opening (
    alike_next (alike_adding (alike_more (alike_value (inr token-IsSecret)) alike_none))
      (alike_next (alike_logging alike_none) alike_end))

log_calls-hides_example :
    (log_calls json_handler (with_token "s3cret") (new_logger ascii_lower info_level, [])).1
    ≡ (log_calls json_handler (with_token "other") (new_logger ascii_lower info_level, [])).1
log_calls-hides_example = log_calls-hides ascii_lower info_level [] with_token-AlikeCalls

-- A handler that fails, and counts the records that it was given.
abbrev broken : HandlerOf (Unit {0}) ℕ
broken = record {
  enabled = λ h level. true;
  handle = λ h r n. (err plain, suc n);
  with_attrs = λ h more. h;
  with_group = λ h k. h;
}

abbrev base_logger : JsonHandler
base_logger = new_logger ascii_lower info_level

log_calls-tee_handler_example :
    log_calls
      (tee_handler json_handler broken)
      (with_token "s3cret")
      (with_additional_sink json_handler broken base_logger tt, ([], 0))
    ≡ (
      (
        (log_calls json_handler (with_token "s3cret") (base_logger, [])).0,
        (log_calls broken (with_token "s3cret") (tt, 0)).0,
      ),
      (
        (log_calls json_handler (with_token "s3cret") (base_logger, [])).1,
        (log_calls broken (with_token "s3cret") (tt, 0)).1,
      ),
    )
log_calls-tee_handler_example =
    log_calls-tee_handler json_handler broken (with_token "s3cret") base_logger tt [] 0

-- Libraries that build everything; the state is what was stopped, and stopping the metrics fails.
abbrev pub example_otel : Otel (List Signal)
example_otel = record {
  resource = pure tt;
  prometheus = pure tt;
  exporter = λ signal protocol endpoint insecure. pure tt;
  instrument = λ name. pure tt;
  stop = λ signal s.
      (elim signal [ metrics_signal ↦ err plain | traces_signal ↦ ok tt ], s ++ signal ∷ []);
}

abbrev sending : TelemetrySettings
sending = record {
  otlp_endpoint = codes "collector:4317";
  otlp_protocol = codes "grpc";
  otlp_insecure = false;
}

abbrev sending_telemetry : Telemetry
sending_telemetry = record {
  metrics = no_metrics;
  tracer = exporting_tracer;
  shutdown = metrics_signal ∷ traces_signal ∷ [];
  otlp_enabled = true;
  otlp_insecure = false;
}

-- A logger of all levels that keeps what it is given.
abbrev pub keeping : Logger (List LogRecord)
keeping = record { enabled = λ level. true; write = λ r lines. lines ++ r ∷ [] }

shutdown_telemetry-stopped_example :
    ((shutdown_telemetry example_otel keeping sending_telemetry ([], [])).0 ≡ ok tt)
    × (((shutdown_telemetry example_otel keeping sending_telemetry ([], [])).1).0
        ≡ stopped example_otel (providers sending) [])
unfolding new_telemetry init_metrics measuring new_metrics init_tracing new_exporter
shutdown_telemetry-stopped_example =
    shutdown_telemetry-stopped example_otel sending keeping [] [] [] [] refl
