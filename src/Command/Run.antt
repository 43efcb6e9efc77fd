-- ===== src/Command/Run.antt =====
-- cmd/webhook/main.go: `run`, and the exit code of `main`. The text of the usage and the addresses in
-- the line of the start are left out, as is the time that a shutdown may take. The requests that are
-- served meanwhile are those of Webhook, and they do not touch what is here.
use external_dns_iij_dpf_web.Base.{
  Bool, List, Option, [], false, if◌then◌else◌, map, none, some, true, ℕ, ◌∷◌,
}
use external_dns_iij_dpf_web.Base.Text.{Text, codes}
use external_dns_iij_dpf_web.Calls.{Call}
use external_dns_iij_dpf_web.Config.Settings.{
  Level, Settings, error_level, info_level, load, warn_level,
}
use external_dns_iij_dpf_web.Dnsname.Name.{Dns}
use external_dns_iij_dpf_web.Dnsname.Scope.{is_empty_scope}
use external_dns_iij_dpf_web.Dpf.Client.{CallRecorder, Client, ClientOption, DpfGo, new_client}
use external_dns_iij_dpf_web.Errors.{
  Error, Result, err, err_help_requested, is, is_ok, ok, wrap, wrap2,
}
use external_dns_iij_dpf_web.Server.Lifecycle.{
  Server, exposed_served, new_server, provider_served, shutdown, start,
}
use external_dns_iij_dpf_web.Telemetry.Setup.{Otel, Telemetry, new_telemetry, shutdown_telemetry}
use external_dns_iij_dpf_web.Telemetry.Slog.{
  LogRecord, LogValue, Logger, error_value, fields_of, text_value, texts_value,
}

-- What the command meets: OpenTelemetry, `utils.NewClient` of dpf-go, `ListenConfig.Listen`, and the
-- `Shutdown` of the two HTTP servers, the provider's first.
pub record Outside (S D : Type 0) : Type 1 where
  pub otel : Otel S
  pub make : List ClientOption → Result (DpfGo D)
  pub listen : Text → Call S Text
  pub stop_provider : S → Option Error × S
  pub stop_exposed : S → Option Error × S

-- What ends the wait: a signal, or the end of a listener's `Serve`, with its error, none for nil.
pub data Event : Type 0 where
  signal : Event
  provider_ended exposed_ended : Option Error → Event

-- What a run has come to. `server` is none before it is built, and `behind` is the state that all
-- that was called has left.
pub record Exit (S L : Type 0) : Type 0 where
  pub result : Result (Unit {0})
  pub usage : Bool
  pub server : Option Server
  pub behind : S
  pub lines : L

-- `os.Exit(1)` where `run` fails.
abbrev pub exit_code : {S L : Type 0} → Exit S L → ℕ
exit_code o = if is_ok o.result then 0 else 1

abbrev pub line : Level → Text → List (Text × LogValue) → LogRecord
line level message more = record { level = level; message = message; attrs = fields_of more }

-- `errors.Join(runErr, err)`.
abbrev pub join_run : Option Error → Error → Error
join_run none e = wrap e
join_run (some f) e = wrap2 f e

abbrev pub result_of : Option Error → Result (Unit {0})
result_of none = ok tt
result_of (some e) = err e

-- The `select`: `runErr` and the server, none while nothing has happened.
unfoldable pub await : Server → List Event → Option (Option Error × Server)
await srv [] = none
await srv (signal ∷ more) = some (none, srv)
await srv (provider_ended none ∷ more) = some (none, provider_served none srv)
await srv (provider_ended (some e) ∷ more) = some (some (wrap e), provider_served (some e) srv)
await srv (exposed_ended none ∷ more) = some (none, exposed_served none srv)
await srv (exposed_ended (some e) ∷ more) = some (some (wrap e), exposed_served (some e) srv)

module _ {S L D : Type 0} (d : Dns) (o : Outside S D) (logger : Level → Logger L) where
  -- The deferred `tel.Shutdown`, behind a run that has come to `result` with `server`.
  unfoldable pub ending : Level → Telemetry → Result (Unit {0}) → Option Server → S × L → Exit S L
  ending level tel result server p =
      let (done, (s, l)) = shutdown_telemetry o.otel (logger level) tel p in
      record { result = result; usage = false; server = server; behind = s; lines = l }

  -- From the end of the wait on.
  unfoldable pub finish : Level → Telemetry → S × L → Option Error × Server → Exit S L
  unfolding ending
  finish level tel (s, l) (run_err, srv) =
      let (e, s₁) = o.stop_provider s in
      let (f, s₂) = o.stop_exposed s₁ in
      let (answer, srv') = shutdown e f srv in
      ending level tel (elim answer [ err e ↦ err (join_run run_err e) | ok u ↦ result_of run_err ])
        (some srv')
        (
          s₂,
          elim answer [
            | err e ↦ l
            | ok u ↦ (logger level).write (line info_level (codes "停止しました") []) l
          ],
        )

  abbrev pub wait_line : Option Error → LogRecord
  wait_line none = line info_level (codes "終了シグナルを受け取りました") []
  wait_line (some e) =
      line error_level (codes "待ち受けが異常終了しました") ((codes "error", error_value e) ∷ [])

  -- A line is logged for a signal and for a listener's error, and none for a listener that ended
  -- without one.
  abbrev pub wait_lines : List Event → Option Error → L → Logger L → L
  wait_lines (signal ∷ more) run_err l lg = lg.write (wait_line none) l
  wait_lines _ (some e) l lg = lg.write (wait_line (some e)) l
  wait_lines _ none l lg = l

  -- `Listen` on the second address, only where the first answers.
  abbrev pub listen_second : Text → Result Text × S → (Result Text × Result Text) × S
  listen_second addr (ok p, s) = let (x, s') = o.listen addr s in ((ok p, x), s')
  listen_second addr (err e, s) = ((err e, err e), s)

  unfoldable pub listen_both : Settings → S → (Result Text × Result Text) × S
  listen_both cfg s = listen_second cfg.server.exposed_addr (o.listen cfg.server.provider_addr s)

  -- From the `select` on; none where nothing happens.
  abbrev pub waited :
      Settings → Telemetry → List Event → S × L → Option (Option Error × Server) → Option (Exit S L)
  waited cfg tel events p none = none
  waited cfg tel events (s, l) (some (run_err, srv)) =
      some (finish cfg.level tel (s, wait_lines events run_err l (logger cfg.level)) (run_err, srv))

  -- From the start of the servers on, with what `Start` answers.
  unfoldable pub started :
      Settings → Telemetry → List Event → S × L → Result (Unit {0}) × Server → Option (Exit S L)
  unfolding await finish ending
  started cfg tel events p (err e, srv) = some (ending cfg.level tel (err e) (some srv) p)
  started cfg tel events (s, l) (ok u, srv) =
      waited cfg tel events
        (s, (logger cfg.level).write (line info_level (codes "待ち受けを開始しました") []) l)
        (await srv events)

  unfoldable pub serve : Settings → Telemetry → List Event → S × L → Option (Exit S L)
  unfolding listen_both started
  serve cfg tel events (s, l) =
      let ((p, x), s₁) = listen_both cfg s in
      started cfg tel events (s₁, l)
        (start p x (new_server cfg.server.provider_addr cfg.server.exposed_addr))

  abbrev pub otlp_lines : Settings → Telemetry → L → L
  otlp_lines cfg tel l =
      let l₁ =
        (logger cfg.level).write
          (line info_level (codes "OTLP による送出を有効にしました") (
            (codes "endpoint", text_value cfg.telemetry.otlp_endpoint)
            ∷ (codes "protocol", text_value cfg.telemetry.otlp_protocol)
            ∷ []))
          l in
      if tel.otlp_enabled
      then (if tel.otlp_insecure
          then (logger cfg.level).write
              (line warn_level (codes "OTLP 送出先への TLS 検証が無効です。既定は有効です") []) l₁
          else l₁)
      else l

  -- From the client on, with what `NewClient` answers.
  unfoldable pub connected :
      {R : Type 0}
      → Settings
      → Telemetry
      → List Event
      → S × L
      → Result (Client D R)
      → Option (Exit S L)
  unfolding serve ending
  connected cfg tel events p (err e) = some (ending cfg.level tel (err e) none p)
  connected cfg tel events p (ok client) = serve cfg tel events p

  abbrev pub scope_line : Settings → LogRecord
  scope_line cfg =
      if is_empty_scope cfg.scope
      then line warn_level (codes "管理対象ドメインが設定されていません。レコードは 1 件も管理されません")
          ((codes "hint", text_value (codes "--domain-filter を指定してください")) ∷ [])
      else line info_level (codes "管理対象ドメイン")
          ((codes "domains", texts_value (map (λ n. n.canonical) cfg.scope.domains)) ∷ [])

  -- A run that ends before there is telemetry.
  abbrev pub early : Result (Unit {0}) → Bool → S → L → Exit S L
  early result usage s l = record {
    result = result;
    usage = usage;
    server = none;
    behind = s;
    lines = l;
  }

  -- From the telemetry on, with what `telemetry.New` answers. The client's recorder is the
  -- telemetry's.
  unfoldable pub observed :
      {R : Type 0}
      → Option (CallRecorder R)
      → Settings
      → List Event
      → L
      → Result Telemetry × S
      → Option (Exit S L)
  unfolding connected
  observed metrics cfg events l (err e, s) = some (early (err e) false s l)
  observed metrics cfg events l (ok tel, s) =
      connected cfg tel events (s, otlp_lines cfg tel l) (new_client o.make cfg.dpf metrics)

  -- From the settings on, with what `config.Load` answers.
  unfoldable pub loaded :
      {R : Type 0}
      → Option (CallRecorder R)
      → List Event
      → S
      → L
      → Result Settings
      → Option (Exit S L)
  unfolding observed
  loaded metrics events s l (err e) =
      some (if is err_help_requested e then early (ok tt) true s l else early (err e) false s l)
  loaded metrics events s l (ok cfg) =
      observed metrics cfg events ((logger cfg.level).write (scope_line cfg) l)
        (new_telemetry o.otel cfg.telemetry s)

  unfoldable pub run :
      {R : Type 0} → Option (CallRecorder R) → List Text → List Event → S → L → Option (Exit S L)
  unfolding loaded
  run metrics args events s l = loaded metrics events s l (load d args)
