-- ===== src/Tests/Starting.antt =====
-- The theorems on the settings, the Accept header and the listeners.
use external_dns_iij_dpf_web.Base.{List, [], false, none, refl, some, true, ◌++◌, ◌∷◌, ◌≡◌}
use external_dns_iij_dpf_web.Base.Text.{Text, codes, trim_left, trim_space}
use external_dns_iij_dpf_web.Config.Flags.{
  act, defaults, parse_flags, read_argument, read_name, set_flag, split_value,
}
use external_dns_iij_dpf_web.Config.Loading.{IsUsable, load-IsUsable}
use external_dns_iij_dpf_web.Config.Settings.{
  Settings, build, info_level, load, parse_log_level, validate_otlp_protocol, validate_token_source,
}
use external_dns_iij_dpf_web.Config.Undefined.{load-refusal, refusal}
use external_dns_iij_dpf_web.Dnsname.Name.{parse}
use external_dns_iij_dpf_web.Errors.{err, is_ok, ok, plain}
use external_dns_iij_dpf_web.Server.Lifecycle.{
  Server, ServerEvent, new_server, provider_ending, server_steps, start, starting, stopping,
}
use external_dns_iij_dpf_web.Server.Together.{
  IsClosed, IsSame, IsServing, server_steps-IsClosed, start_together,
}
use external_dns_iij_dpf_web.Tests.ExampleDns.{dotted, example_dns, example_dns-DnsLaws, with_dot}
use external_dns_iij_dpf_web.Tests.Examples.{name_of}
use external_dns_iij_dpf_web.Webhook.Negotiation.{ParseMedia}

abbrev started : List Text
started =
    codes "-dpf-token-file=f" ∷ codes "--domain-filter" ∷ codes "a" ∷ codes "--otlp-insecure" ∷ []

abbrev started_settings : Settings
started_settings = record {
  scope = record { domains = name_of "a." ∷ [] };
  dpf = record { endpoint = []; token_file = codes "f" };
  server = record { provider_addr = codes "127.0.0.1:8888"; exposed_addr = codes ":8080" };
  telemetry = record { otlp_endpoint = []; otlp_protocol = codes "grpc"; otlp_insecure = true };
  level = info_level;
}

load-IsUsable_example : IsUsable example_dns example_dns-DnsLaws started_settings
unfolding load build parse_flags act read_argument read_name split_value set_flag parse_log_level
    validate_token_source validate_otlp_protocol parse dotted with_dot trim_space trim_left
load-IsUsable_example = load-IsUsable example_dns example_dns-DnsLaws started started_settings refl

load-refusal_example :
    load example_dns (started ++ codes "--dpf-token=x" ∷ codes "--log-level=debug" ∷ [])
    ≡ err (refusal (codes "dpf-token"))
unfolding act set_flag read_argument read_name split_value parse dotted with_dot trim_space
    trim_left
load-refusal_example =
    load-refusal example_dns started (codes "--log-level=debug" ∷ []) (codes "--dpf-token=x")
      (codes "dpf-token") (some (codes "x"))
      (record defaults {
        domains = name_of "a." ∷ [];
        token_file = codes "f";
        otlp_insecure = true;
      })
      refl refl refl

-- A reader that takes what it is given for the type, without parameters.
abbrev bare : ParseMedia
bare s = some (s, [])

abbrev restarted : List ServerEvent
restarted =
    starting (ok (codes ":1")) (ok (codes ":2"))
    ∷ provider_ending none
    ∷ stopping none (some plain)
    ∷ starting (ok (codes ":1")) (err plain)
    ∷ []

server_steps-IsClosed_example :
    IsClosed (server_steps (new_server (codes ":1") (codes ":2")) restarted)
server_steps-IsClosed_example = server_steps-IsClosed (codes ":1") (codes ":2") restarted

abbrev restarted_server : Server
restarted_server = server_steps (new_server (codes ":1") (codes ":2")) restarted

start_together_example :
    ((start (ok (codes ":1")) (err plain) restarted_server).0 ≡ ok tt
      → IsServing (start (ok (codes ":1")) (err plain) restarted_server).1)
    × (is_ok (start (ok (codes ":1")) (err plain) restarted_server).0 ≡ false
        → IsSame restarted_server (start (ok (codes ":1")) (err plain) restarted_server).1)
start_together_example =
    start_together (codes ":1") (codes ":2") restarted (ok (codes ":1")) (err plain)
