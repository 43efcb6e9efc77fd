-- ===== src/Config/Settings.antt =====
-- internal/config/config.go: the settings and how they are built.
use external_dns_iij_dpf_web.Base.{
  Bool, List, eq_list, eq_ℕ, if◌then◌else◌, is_empty, not, ◌&&◌, ◌==◌,
}
use external_dns_iij_dpf_web.Base.Int.{eq_ℤ}
use external_dns_iij_dpf_web.Base.Text.{Text, codes}
use external_dns_iij_dpf_web.Config.Flags.{Values, defaults, parse_flags}
use external_dns_iij_dpf_web.Dnsname.Name.{Dns, eq_name}
use external_dns_iij_dpf_web.Dnsname.Scope.{Scope, new_scope}
use external_dns_iij_dpf_web.Errors.{
  Error, Result, err, err_invalid, err_missing_required, ok, sentinel, wrap, ◌>>=◌, ◌>>◌,
}

pub record DpfSettings : Type 0 where
  pub endpoint : Text
  pub token_file : Text

pub record ServerSettings : Type 0 where
  pub provider_addr : Text
  pub exposed_addr : Text

pub record TelemetrySettings : Type 0 where
  pub otlp_endpoint : Text
  pub otlp_protocol : Text
  pub otlp_insecure : Bool

-- `slog`'s levels.
pub data Level : Type 0 where
  debug_level info_level warn_level error_level : Level

pub record Settings : Type 0 where
  pub scope : Scope
  pub dpf : DpfSettings
  pub server : ServerSettings
  pub telemetry : TelemetrySettings
  pub level : Level

abbrev pub otlp_enabled : TelemetrySettings → Bool
otlp_enabled t = not (is_empty t.otlp_endpoint)

abbrev pub invalid_setting : Error
invalid_setting = wrap (sentinel err_invalid)

abbrev pub missing_setting : Error
missing_setting = wrap (sentinel err_missing_required)

unfoldable pub parse_log_level : Text → Result Level
parse_log_level s =
    if s == codes "debug"
    then ok debug_level
    else if s == codes "info"
    then ok info_level
    else if s == codes "warn"
    then ok warn_level
    else if s == codes "error"
    then ok error_level
    else err invalid_setting

unfoldable pub validate_token_source : DpfSettings → Result (Unit {0})
validate_token_source d = if is_empty d.token_file then err missing_setting else ok tt

unfoldable pub validate_otlp_protocol : Text → Result (Unit {0})
validate_otlp_protocol p =
    if not (p == codes "grpc") && not (p == codes "http") then err invalid_setting else ok tt

abbrev pub settings_of : Values → Level → Settings
settings_of v level = record {
  scope = new_scope v.domains;
  dpf = record { endpoint = v.dpf_endpoint; token_file = v.token_file };
  server = record { provider_addr = v.provider_addr; exposed_addr = v.exposed_addr };
  telemetry = record {
    otlp_endpoint = v.otlp_endpoint;
    otlp_protocol = v.otlp_protocol;
    otlp_insecure = v.otlp_insecure;
  };
  level = level;
}

unfoldable pub build : Values → Result Settings
build v = parse_log_level v.log_level >>= λ level.
    validate_token_source (record { endpoint = v.dpf_endpoint; token_file = v.token_file })
    >> (validate_otlp_protocol v.otlp_protocol >> ok (settings_of v level))

unfoldable pub load : Dns → List Text → Result Settings
unfolding parse_flags build
load d args = parse_flags d args defaults >>= build
