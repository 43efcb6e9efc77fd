-- ===== src/Command/Answering.antt =====
-- Lemmas on that a run of cmd/webhook/main.go ends, and on what it answers.
use external_dns_iij_dpf_web.Base.{
  Bool, Bool-cases, List, Option, false, inl, inr, none, refl, some, true, ◌∷◌, ◌≡◌,
}
use external_dns_iij_dpf_web.Base.Text.{Text}
use external_dns_iij_dpf_web.Command.Run.{
  Event, Exit, Outside, await, connected, ending, exposed_ended, finish, join_run, loaded, observed,
  provider_ended, result_of, run, serve, signal, started, wait_lines, waited,
}
use external_dns_iij_dpf_web.Config.Settings.{Level, Settings, load}
use external_dns_iij_dpf_web.Dnsname.Name.{Dns}
use external_dns_iij_dpf_web.Dpf.Client.{CallRecorder, Client}
use external_dns_iij_dpf_web.Errors.{Error, Result, err, err_help_requested, is, is_ok, ok, wrap}
use external_dns_iij_dpf_web.Server.Lifecycle.{Server, exposed_served, provider_served}
use external_dns_iij_dpf_web.Telemetry.Setup.{Telemetry}
use external_dns_iij_dpf_web.Telemetry.Slog.{Logger}

-- The end of a listener with an error.
abbrev pub has_failed : Event → Bool
has_failed signal = false
has_failed (provider_ended none) = false
has_failed (provider_ended (some e)) = true
has_failed (exposed_ended none) = false
has_failed (exposed_ended (some e)) = true

result_of_joined :
    (r : Result (Unit {0})) (run_err : Option Error) (f : Error)
    → run_err ≡ some f
    → is_ok {A = Unit {0}} (elim r [ err e ↦ err (join_run run_err e) | ok u ↦ result_of run_err ])
      ≡ false
result_of_joined r none f h = cc h
result_of_joined (ok u) (some g) f h = refl
result_of_joined (err e) (some g) f h = refl

await-some :
    (srv : Server) (e : Event) (more : List Event)
    → (r : Option Error × Server) × (await srv (e ∷ more) ≡ some r)
      × (has_failed e ≡ true → (f : Error) × (r.0 ≡ some f))
unfolding await
await-some srv signal more = ((none, srv), refl, λ h. cc h)
await-some srv (provider_ended none) more = ((none, provider_served none srv), refl, λ h. cc h)
await-some srv (provider_ended (some f)) more =
    ((some (wrap f), provider_served (some f) srv), refl, λ h. (wrap f, refl))
await-some srv (exposed_ended none) more = ((none, exposed_served none srv), refl, λ h. cc h)
await-some srv (exposed_ended (some f)) more =
    ((some (wrap f), exposed_served (some f) srv), refl, λ h. (wrap f, refl))

module _ {S L D : Type 0} (d : Dns) (o : Outside S D) (logger : Level → Logger L) (e : Event) where
  -- A run that ends, and, where the first event is the failure of a listener, with an error unless it
  -- printed the usage.
  abbrev Answers : Option (Exit S L) → Type 0
  Answers none = ⊥
  Answers (some out) = has_failed e ≡ true → is_ok out.result ≡ out.usage

  finish-Answers :
      (level : Level) (tel : Telemetry) (p : S × L) (r : Option Error × Server)
      → (has_failed e ≡ true → (f : Error) × (r.0 ≡ some f))
      → Answers (some (finish d o logger level tel p r))
  unfolding finish ending
  finish-Answers level tel (s, l) (run_err, srv) h y =
      let (f, same) = h y in result_of_joined _ run_err f same

  waited-Answers :
      (cfg : Settings) (tel : Telemetry) (more : List Event) (p : S × L) (srv : Server)
      → Answers (waited d o logger cfg tel (e ∷ more) p (await srv (e ∷ more)))
  waited-Answers cfg tel more (s, l) srv =
      let (r, awaited, h) = await-some srv e more in
      rw awaited (
        finish-Answers cfg.level tel (s, wait_lines d o logger (e ∷ more) r.0 l (logger cfg.level))
          r h)

  started-Answers :
      (cfg : Settings) (tel : Telemetry) (more : List Event) (p : S × L)
      (r : Result (Unit {0}) × Server)
      → Answers (started d o logger cfg tel (e ∷ more) p r)
  unfolding started ending
  started-Answers cfg tel more p (err f, srv) = λ h. refl
  started-Answers cfg tel more p (ok u, srv) = waited-Answers cfg tel more _ srv

  connected-Answers :
      {R : Type 0} (cfg : Settings) (tel : Telemetry) (more : List Event) (p : S × L)
      (r : Result (Client D R))
      → Answers (connected d o logger cfg tel (e ∷ more) p r)
  unfolding connected serve ending
  connected-Answers cfg tel more p (err f) = λ h. refl
  connected-Answers cfg tel more p (ok client) = started-Answers cfg tel more _ _

  observed-Answers :
      {R : Type 0} (metrics : Option (CallRecorder R)) (cfg : Settings) (more : List Event) (l : L)
      (r : Result Telemetry × S)
      → Answers (observed d o logger metrics cfg (e ∷ more) l r)
  unfolding observed
  observed-Answers metrics cfg more l (err f, s) = λ h. refl
  observed-Answers metrics cfg more l (ok tel, s) = connected-Answers cfg tel more _ _

  loaded-Answers :
      {R : Type 0} (metrics : Option (CallRecorder R)) (more : List Event) (s : S) (l : L)
      (r : Result Settings)
      → Answers (loaded d o logger metrics (e ∷ more) s l r)
  unfolding loaded
  loaded-Answers metrics more s l (err f) = elim (Bool-cases (is err_help_requested f)) [
    | inl y ↦ rw y (λ h. refl)
    | inr n ↦ rw n (λ h. refl)
  ]
  loaded-Answers metrics more s l (ok cfg) = observed-Answers metrics cfg more _ _

  answered :
      (r : Option (Exit S L))
      → Answers r
      → (out : Exit S L) × (r ≡ some out) × (has_failed e ≡ true → is_ok out.result ≡ out.usage)
  answered none h = absurd h
  answered (some out) h = (out, refl, h)

  -- A run of the command ends as soon as there is a signal or a listener ends, if it has not ended
  -- before; and where that is a listener's failure, the run succeeds only if it has printed the
  -- usage, so that the process does not live on, or exit with 0, without its listeners.
  pub run-answers :
      {R : Type 0} (metrics : Option (CallRecorder R)) (args : List Text) (more : List Event)
      (s : S) (l : L)
      → (out : Exit S L) × (run d o logger metrics args (e ∷ more) s l ≡ some out)
        × (has_failed e ≡ true → is_ok out.result ≡ out.usage)
  unfolding run
  run-answers metrics args more s l = answered _ (loaded-Answers metrics more s l (load d args))
