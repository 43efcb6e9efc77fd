-- ===== src/Command/Ending.antt =====
-- Lemmas on how a run of cmd/webhook/main.go ends.
use external_dns_iij_dpf_web.Base.{
  Bool, Bool-cases, List, Option, [], ap, false, inl, inr, none, refl, some, some_inj, subst, sym,
  true, ◌∙◌, ◌∷◌, ◌≡◌,
}
use external_dns_iij_dpf_web.Base.Text.{Text}
use external_dns_iij_dpf_web.Command.Run.{
  Event, Exit, Outside, await, connected, early, ending, exposed_ended, finish, listen_both, loaded,
  observed, otlp_lines, provider_ended, run, scope_line, serve, signal, started, waited,
}
use external_dns_iij_dpf_web.Config.Settings.{Level, Settings, load}
use external_dns_iij_dpf_web.Dnsname.Name.{Dns}
use external_dns_iij_dpf_web.Dpf.Client.{CallRecorder, Client, new_client}
use external_dns_iij_dpf_web.Errors.{Error, Result, err, err_help_requested, is, is_ok, ok}
use external_dns_iij_dpf_web.Server.Lifecycle.{
  Server, ServerEvent, exposed_ending, new_server, provider_ending, server_step, server_steps,
  shutdown, start, starting,
}
use external_dns_iij_dpf_web.Server.Together.{IsClosed, server_steps-IsClosed}
use external_dns_iij_dpf_web.Telemetry.Setup.{Signal, Telemetry, new_telemetry, shutdown_telemetry}
use external_dns_iij_dpf_web.Telemetry.Slog.{Logger}
use external_dns_iij_dpf_web.Telemetry.Stopping.{
  new_telemetry-providers, providers, stop_all-stopped, stopped,
}

-- No listener of the server is open.
abbrev pub IsShut : Option Server → Type 0
IsShut none = Unit
IsShut (some srv) = (srv.provider_open ≡ false) × (srv.exposed_open ≡ false)

shutdown-IsShut :
    (e f : Option Error) (srv : Server) → IsClosed srv → IsShut (some (shutdown e f srv).1)
unfolding shutdown
shutdown-IsShut e f srv h = elim (Bool-cases srv.started) [
  | inl y ↦ rw y (refl, refl)
  | inr n ↦ rw n (h n)
]

await-steps :
    (srv : Server) (events : List Event) {r : Option Error} {srv' : Server}
    → await srv events ≡ some (r, srv')
    → (es : List ServerEvent) × (srv' ≡ server_steps srv es)
unfolding await server_steps server_step
await-steps srv [] h = cc h
await-steps srv (signal ∷ more) h = ([], ap (λ (p : Option Error × Server). p.1) (sym (some_inj h)))
await-steps srv (provider_ended none ∷ more) h =
    (provider_ending none ∷ [], ap (λ (p : Option Error × Server). p.1) (sym (some_inj h)))
await-steps srv (provider_ended (some e) ∷ more) h =
    (provider_ending (some e) ∷ [], ap (λ (p : Option Error × Server). p.1) (sym (some_inj h)))
await-steps srv (exposed_ended none ∷ more) h =
    (exposed_ending none ∷ [], ap (λ (p : Option Error × Server). p.1) (sym (some_inj h)))
await-steps srv (exposed_ended (some e) ∷ more) h =
    (exposed_ending (some e) ∷ [], ap (λ (p : Option Error × Server). p.1) (sym (some_inj h)))

-- A start that fails leaves no listener of a new server open.
start-IsShut :
    (a b : Text) (p x : Result Text)
    → is_ok (start p x (new_server a b)).0 ≡ false
    → IsShut (some (start p x (new_server a b)).1)
unfolding start new_server
start-IsShut a b (err e) x h = (refl, refl)
start-IsShut a b (ok p) (err e) h = (refl, refl)
start-IsShut a b (ok p) (ok x) h = cc h

start_steps-IsClosed :
    (a b : Text) (p x : Result Text) (es : List ServerEvent)
    → IsClosed (server_steps (start p x (new_server a b)).1 es)
start_steps-IsClosed a b p x es =
    unfold server_steps server_step in server_steps-IsClosed a b (starting p x ∷ es)

module _ {S L D : Type 0} (d : Dns) (o : Outside S D) (logger : Level → Logger L) where
  -- The last that was done to the state behind is to stop the providers of `signals`, in this order.
  abbrev pub IsStopped : List Signal → Exit S L → Type 0
  IsStopped signals out = (s : S) × (out.behind ≡ stopped o.otel signals s)

  ending-IsStopped :
      (level : Level) (tel : Telemetry) (result : Result (Unit {0})) (server : Option Server)
      (p : S × L)
      → IsStopped tel.shutdown (ending d o logger level tel result server p)
  unfolding ending shutdown_telemetry
  ending-IsStopped level tel result server (s, l) =
      (s, stop_all-stopped o.otel (logger level) tel.shutdown s l)

  finish-IsStopped :
      (level : Level) (tel : Telemetry) (s : S) (l : L) (run_err : Option Error) (srv : Server)
      → IsStopped tel.shutdown (finish d o logger level tel (s, l) (run_err, srv))
  unfolding finish ending shutdown_telemetry
  finish-IsStopped level tel s l run_err srv =
      let (e, s₁) = o.stop_provider s in
      let (f, s₂) = o.stop_exposed s₁ in
      (s₂, stop_all-stopped o.otel (logger level) tel.shutdown s₂ _)

  -- A run that ends leaves no listener open, and has stopped the providers of `signals`.
  abbrev pub IsEnded : List Signal → Option (Exit S L) → Type 0
  IsEnded signals none = Unit
  IsEnded signals (some out) = IsShut out.server × IsStopped signals out

  waited-IsEnded :
      (cfg : Settings) (tel : Telemetry) (events : List Event) (p : S × L)
      (r : Option (Option Error × Server))
      → ((x : Option Error × Server) → r ≡ some x → IsClosed x.1)
      → IsEnded tel.shutdown (waited d o logger cfg tel events p r)
  unfolding finish
  waited-IsEnded cfg tel events p none h = tt
  waited-IsEnded cfg tel events (s, l) (some (run_err, srv)) h =
      let (e, s₁) = o.stop_provider s in
      (
        shutdown-IsShut e (o.stop_exposed s₁).0 srv (h (run_err, srv) refl),
        finish-IsStopped cfg.level tel s _ run_err srv,
      )

  started-IsEnded :
      (cfg : Settings) (tel : Telemetry) (events : List Event) (p : S × L)
      (r : Result (Unit {0}) × Server)
      → (is_ok r.0 ≡ false → IsShut (some r.1))
      → ((es : List ServerEvent) → IsClosed (server_steps r.1 es))
      → IsEnded tel.shutdown (started d o logger cfg tel events p r)
  unfolding started
  started-IsEnded cfg tel events p (err e, srv) h k =
      (h refl, ending-IsStopped cfg.level tel (err e) (some srv) p)
  started-IsEnded cfg tel events (s, l) (ok u, srv) h k =
      waited-IsEnded cfg tel events _ (await srv events)
        λ x e. let (es, same) = await-steps srv events e in subst IsClosed (sym same) (k es)

  serve-IsEnded :
      (cfg : Settings) (tel : Telemetry) (events : List Event) (p : S × L)
      → IsEnded tel.shutdown (serve d o logger cfg tel events p)
  unfolding serve
  serve-IsEnded cfg tel events (s, l) =
      let ((p, x), s₁) = listen_both d o logger cfg s in
      let a = cfg.server.provider_addr in
      let b = cfg.server.exposed_addr in
      started-IsEnded cfg tel events (s₁, l) (start p x (new_server a b)) (start-IsShut a b p x)
        (λ es. start_steps-IsClosed a b p x es)

  connected-IsEnded :
      {R : Type 0} (cfg : Settings) (tel : Telemetry) (events : List Event) (p : S × L)
      (r : Result (Client D R))
      → IsEnded tel.shutdown (connected d o logger cfg tel events p r)
  unfolding connected
  connected-IsEnded cfg tel events p (err e) = (tt, ending-IsStopped cfg.level tel (err e) none p)
  connected-IsEnded cfg tel events p (ok client) = serve-IsEnded cfg tel events p

  -- A run whose settings are loaded and whose telemetry is built goes on to the client.
  run_connected :
      {R : Type 0} (metrics : Option (CallRecorder R)) (args : List Text) (events : List Event)
      (s s' : S) (l : L) (cfg : Settings) (tel : Telemetry)
      → load d args ≡ ok cfg
      → new_telemetry o.otel cfg.telemetry s ≡ (ok tel, s')
      → run d o logger metrics args events s l
        ≡ connected d o logger cfg tel events
            (
              s',
              otlp_lines d o logger cfg tel
                  ((logger cfg.level).write (scope_line d o logger cfg) l),
            )
            (new_client o.make cfg.dpf metrics)
  unfolding run loaded observed
  run_connected metrics args events s s' l cfg tel loads builds = rw (loads, builds) refl

  early-IsShut :
      (result : Result (Unit {0})) (usage : Bool) (s : S) (l : L) (out : Exit S L)
      → some (early d o logger result usage s l) ≡ some out
      → IsShut out.server
  early-IsShut result usage s l out h = subst (λ (x : Exit S L). IsShut x.server) (some_inj h) tt

  observed-IsShut :
      {R : Type 0} (metrics : Option (CallRecorder R)) (cfg : Settings) (events : List Event)
      (l : L) (r : Result Telemetry × S) (out : Exit S L)
      → observed d o logger metrics cfg events l r ≡ some out
      → IsShut out.server
  unfolding observed
  observed-IsShut metrics cfg events l (err e, s) out h = early-IsShut (err e) false s l out h
  observed-IsShut metrics cfg events l (ok tel, s) out h =
      (subst (λ (x : Option (Exit S L)). IsEnded tel.shutdown x) h
        (connected-IsEnded cfg tel events (s, otlp_lines d o logger cfg tel l)
          (new_client o.make cfg.dpf metrics))).0

  loaded-IsShut :
      {R : Type 0} (metrics : Option (CallRecorder R)) (events : List Event) (s : S) (l : L)
      (r : Result Settings) (out : Exit S L)
      → loaded d o logger metrics events s l r ≡ some out
      → IsShut out.server
  unfolding loaded
  loaded-IsShut metrics events s l (err e) out h = elim (Bool-cases (is err_help_requested e)) [
    | inl y ↦ early-IsShut (ok tt) true s l out (rw y at h)
    | inr n ↦ early-IsShut (err e) false s l out (rw n at h)
  ]
  loaded-IsShut metrics events s l (ok cfg) out h = observed-IsShut metrics cfg events _ _ out h

  -- However a run of the command ends, by a request for help, a failure at any step of the start, a
  -- signal or the end of a listener, and whatever the shutdown answers, it leaves no listener open;
  -- and if the telemetry was built, the last that it does is to stop the provider of the metrics and,
  -- where an endpoint is set, that of the traces.
  pub run-IsEnded :
      {R : Type 0} (metrics : Option (CallRecorder R)) (args : List Text) (events : List Event)
      (s : S) (l : L) (out : Exit S L)
      → run d o logger metrics args events s l ≡ some out
      → IsShut out.server
        × ((cfg : Settings) (tel : Telemetry) (s' : S)
            → load d args ≡ ok cfg
            → new_telemetry o.otel cfg.telemetry s ≡ (ok tel, s')
            → IsStopped (providers cfg.telemetry) out)
  unfolding run
  run-IsEnded metrics args events s l out h = (
    loaded-IsShut metrics events s l (load d args) out h,
    λ cfg tel s' loads builds. at_last cfg tel s' loads builds,
  )
    where
      at_last :
          (cfg : Settings) (tel : Telemetry) (s' : S)
          → load d args ≡ ok cfg
          → new_telemetry o.otel cfg.telemetry s ≡ (ok tel, s')
          → IsStopped (providers cfg.telemetry) out
      at_last cfg tel s' loads builds =
          let l' = (logger cfg.level).write (scope_line d o logger cfg) l in
          let connects : connected d o logger cfg tel events (s', otlp_lines d o logger cfg tel l')
                (new_client o.make cfg.dpf metrics)
              ≡ some out =
            sym (run_connected metrics args events s s' l cfg tel loads builds) ∙ h in
          subst (λ (signals : List Signal). IsStopped signals out)
            (new_telemetry-providers o.otel cfg.telemetry s s' builds)
            (subst (λ (x : Option (Exit S L)). IsEnded tel.shutdown x) connects
              (connected-IsEnded cfg tel events (s', otlp_lines d o logger cfg tel l')
                (new_client o.make cfg.dpf metrics))).1
