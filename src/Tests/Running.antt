-- ===== src/Tests/Running.antt =====
-- The theorems on the command, and on the parts together.
use external_dns_iij_dpf_web.Base.{List, Option, [], none, some, suc, true, ℕ, ◌∷◌, ◌≡◌}
use external_dns_iij_dpf_web.Base.Text.{Text, codes}
use external_dns_iij_dpf_web.Command.Answering.{has_failed, run-answers}
use external_dns_iij_dpf_web.Command.Ending.{IsShut, IsStopped, run-IsEnded}
use external_dns_iij_dpf_web.Command.Run.{Exit, Outside, exposed_ended, run, signal}
use external_dns_iij_dpf_web.Composed.Failing.{IsClassified, client-IsClassified}
use external_dns_iij_dpf_web.Config.Settings.{Settings, load}
use external_dns_iij_dpf_web.Dpf.Client.{CallRecorder, Client, DpfGo, client_backend}
use external_dns_iij_dpf_web.Dpf.Read.{failed}
use external_dns_iij_dpf_web.Errors.{deadline_exceeded, err, is_ok, net_error, ok, plain, sentinel}
use external_dns_iij_dpf_web.Provider.Apply.{apply_changes}
use external_dns_iij_dpf_web.Provider.Service.{records}
use external_dns_iij_dpf_web.Provider.Types.{ChangeSet}
use external_dns_iij_dpf_web.Telemetry.Metrics.{Metrics, record_dpf_call}
use external_dns_iij_dpf_web.Telemetry.Setup.{Signal, Telemetry, new_telemetry}
use external_dns_iij_dpf_web.Telemetry.Slog.{LogRecord}
use external_dns_iij_dpf_web.Telemetry.Stopping.{providers}
use external_dns_iij_dpf_web.Tests.ExampleDns.{example_dns}
use external_dns_iij_dpf_web.Tests.Examples.{example_txt}
use external_dns_iij_dpf_web.Tests.Observed.{example_otel, keeping}
use external_dns_iij_dpf_web.Tests.Serving.{one_domain}

-- A DPF whose calls all fail, with an answer of the API or without one; its state is a clock.
abbrev unreachable : DpfGo ℕ
unreachable = record {
  operation = λ m s. let (answer, s') = m s in (answer, suc s');
  zones = λ s. (failed none net_error, s);
  records = λ id keywords s. (failed (some 404) plain, s);
  histories = λ id order limit s. (failed none net_error, s);
  applier = record {
    run = λ id edit s. record { result = err net_error; events = []; state = suc s };
  };
  now = λ s. s;
}

abbrev broken_client : Client ℕ (Option Metrics)
broken_client = record {
  api = unreachable;
  metrics = some (record { record_dpf_call = record_dpf_call });
}

client-IsClassified_example :
    IsClassified
      (records example_dns one_domain (client_backend broken_client example_dns example_txt))
    × ((cs : ChangeSet)
        → IsClassified (
            apply_changes example_dns example_txt one_domain
              (client_backend broken_client example_dns example_txt)
              cs))
client-IsClassified_example = client-IsClassified example_dns example_txt one_domain broken_client

-- Both addresses can be listened on, and stopping the exposed server takes too long.
abbrev outside : Outside (List Signal) ℕ
outside = record {
  otel = example_otel;
  make = λ options. ok unreachable;
  listen = λ addr s. (ok addr, s);
  stop_provider = λ s. (none, s);
  stop_exposed = λ s. (some (sentinel deadline_exceeded), s);
}

abbrev arguments : List Text
arguments = codes "--dpf-token-file=t" ∷ []

abbrev no_recorder : Option (CallRecorder (Unit {0}))
no_recorder = none

run-answers_example :
    (out : Exit (List Signal) (List LogRecord)) × (run example_dns outside
        (λ level. keeping)
        no_recorder
        arguments
        (exposed_ended (some plain) ∷ signal ∷ [])
        []
        []
      ≡ some out)
    × (has_failed (exposed_ended (some plain)) ≡ true → is_ok out.result ≡ out.usage)
run-answers_example =
    run-answers example_dns outside (λ level. keeping) (exposed_ended (some plain)) no_recorder
      arguments (signal ∷ []) [] []

-- The run above, once more.
abbrev ended :
    (out : Exit (List Signal) (List LogRecord)) × (run example_dns outside
        (λ level. keeping)
        no_recorder
        arguments
        (exposed_ended (some plain) ∷ signal ∷ [])
        []
        []
      ≡ some out)
    × (has_failed (exposed_ended (some plain)) ≡ true → is_ok out.result ≡ out.usage)
ended =
    run-answers example_dns outside (λ level. keeping) (exposed_ended (some plain)) no_recorder
      arguments (signal ∷ []) [] []

run-IsEnded_example :
    IsShut ended.0.server
    × ((cfg : Settings) (tel : Telemetry) (s' : List Signal)
        → load example_dns arguments ≡ ok cfg
        → new_telemetry example_otel cfg.telemetry [] ≡ (ok tel, s')
        → IsStopped example_dns outside (λ level. keeping) (providers cfg.telemetry) ended.0)
run-IsEnded_example =
    run-IsEnded example_dns outside (λ level. keeping) no_recorder arguments
      (exposed_ended (some plain) ∷ signal ∷ []) [] [] ended.0 ended.1
