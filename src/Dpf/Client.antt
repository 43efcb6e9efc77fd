-- ===== src/Dpf/Client.antt =====
-- internal/dpf/client.go and token.go: how the client is built and how it measures its calls, and
-- the calls of records.go, zone.go, history.go and apply.go as the client makes them. Spans are left
-- out.
use external_dns_iij_dpf_web.Base.{
  Bool, List, Option, [], if◌then◌else◌, is_empty, keep_some, map, none, some, ℕ, ◌++◌, ◌-◌, ◌∷◌,
}
use external_dns_iij_dpf_web.Base.Text.{Text, codes}
use external_dns_iij_dpf_web.Calls.{Call}
use external_dns_iij_dpf_web.Config.Settings.{DpfSettings}
use external_dns_iij_dpf_web.Dnsname.Name.{Dns}
use external_dns_iij_dpf_web.Dpf.Apply.{ZoneApplier, apply_error, edit}
use external_dns_iij_dpf_web.Dpf.Classify.{classify}
use external_dns_iij_dpf_web.Dpf.Label.{apply_attribution, managed_by_label_key}
use external_dns_iij_dpf_web.Dpf.Lock.{new_lock_wait, wait_steps}
use external_dns_iij_dpf_web.Dpf.Read.{
  ListedHistory, ListedZone, Reply, ZoneHistory, read_reply, to_history, to_provider_record,
  to_zone,
}
use external_dns_iij_dpf_web.Dpf.Wire.{WireRecord}
use external_dns_iij_dpf_web.Errors.{Result, err, is_ok, ok, plain, wrap, ◌>>=◌}
use external_dns_iij_dpf_web.Provider.Backend.{Backend}
use external_dns_iij_dpf_web.Provider.Txt.{TxtCodec}
use external_dns_iij_dpf_web.Provider.Types.{ChangeSet, Record, Zone, is_empty_changes}

-- `utils.ClientOption`, as far as it is used. A token provider that reads a file is the file's name.
pub data ClientOption : Type 0 where
  with_token_provider : Text → ClientOption
  with_endpoint : Text → ClientOption

pub data SearchOrder : Type 0 where
  asc desc : SearchOrder

-- What the client calls of dpf-go, on the state of DPF behind it. `operation` runs a call, again
-- where a failure passes; `records` has the keywords of labels as its second argument, and `now` is
-- the clock.
pub record DpfGo (S : Type 0) : Type 1 where
  pub operation : {A : Type 0} → Call S A → Call S A
  pub zones : S → Reply (List ListedZone) × S
  pub records : Text → List Text → S → Reply (List WireRecord) × S
  pub histories : Text → SearchOrder → ℕ → S → Reply (List ListedHistory) × S
  pub applier : ZoneApplier S
  pub now : S → ℕ

-- `Recorder`.
pub record CallRecorder (R : Type 0) : Type 0 where
  pub record_dpf_call : Text → Bool → ℕ → R → R

pub record Client (S R : Type 0) : Type 1 where
  pub api : DpfGo S
  pub metrics : Option (CallRecorder R)

-- The states behind dpf-go and the recorder.
pub record ClientState (S R : Type 0) : Type 0 where
  pub api : S
  pub measured : R

-- `newTokenProvider`.
unfoldable pub new_token_provider : DpfSettings → Result ClientOption
new_token_provider cfg =
    if is_empty cfg.token_file then err plain else ok (with_token_provider cfg.token_file)

-- The option that follows the token provider.
abbrev pub endpoint_option : Text → List ClientOption
endpoint_option endpoint = if is_empty endpoint then [] else with_endpoint endpoint ∷ []

abbrev pub made : {S R : Type 0} → Option (CallRecorder R) → Result (DpfGo S) → Result (Client S R)
made metrics (ok api) = ok (record { api = api; metrics = metrics })
made metrics (err e) = err (wrap e)

-- `NewClient`, with `utils.NewClient` as an argument.
unfoldable pub new_client :
    {S R : Type 0}
    → (List ClientOption → Result (DpfGo S))
    → DpfSettings
    → Option (CallRecorder R)
    → Result (Client S R)
unfolding new_token_provider
new_client make cfg metrics =
    new_token_provider cfg >>= λ tp. made metrics (make (tp ∷ endpoint_option cfg.endpoint))

abbrev pub history_limit : ℕ
history_limit = 20

module _ {S R : Type 0} (c : Client S R) where
  -- The end of `observe`.
  abbrev pub measure : Text → Bool → ℕ → R → R
  measure operation success seconds r = elim c.metrics [
    | none ↦ r
    | some m ↦ m.record_dpf_call operation success seconds r
  ]

  unfoldable pub observe : {A : Type 0} → Text → Call S A → Call (ClientState S R) A
  observe operation fn w =
      let (answer, s) = fn w.api in
      (
        answer,
        record {
          api = s;
          measured = measure operation (is_ok answer) (c.api.now s - c.api.now w.api) w.measured;
        },
      )

  -- `Classify(fmt.Errorf("...: %w", err))` around the error of a call.
  abbrev pub classified : {A : Type 0} → Call (ClientState S R) A → Call (ClientState S R) A
  classified m w =
      let (r, w') = m w in (elim r [ ok a ↦ ok a | err e ↦ err (classify (wrap e)) ], w')

  -- The body of the four listings.
  unfoldable pub listing :
      {A B : Type 0} → Text → (A → B) → (S → Reply A × S) → Call (ClientState S R) B
  unfolding observe
  listing operation f fetch = classified (
      observe operation
        (c.api.operation (λ s. let (reply, s') = fetch s in (read_reply f reply, s'))))

  unfoldable pub list_zones : Dns → Call (ClientState S R) (List Zone)
  unfolding listing
  list_zones d = listing (codes "list_zones") (keep_some (to_zone d)) c.api.zones

  unfoldable pub list_records : Dns → Zone → Call (ClientState S R) (List Record)
  unfolding listing to_provider_record
  list_records d zone =
      listing (codes "list_records") (keep_some (to_provider_record d)) (c.api.records zone.id [])

  unfoldable pub records_with_managed_by : Dns → Zone → Call (ClientState S R) (List Record)
  unfolding listing to_provider_record
  records_with_managed_by d zone =
      listing (codes "list_records_by_label") (keep_some (to_provider_record d))
        (c.api.records zone.id ((managed_by_label_key ++ (codes "=" ++ apply_attribution)) ∷ []))

  unfoldable pub zone_histories : Zone → Call (ClientState S R) (List ZoneHistory)
  unfolding listing
  zone_histories zone =
      listing (codes "list_zone_histories") (map to_history)
        (c.api.histories zone.id desc history_limit)

  -- `Client.Apply`: what `observe` runs is the applier, with the events of the lock wait beside it.
  unfoldable pub client_apply :
      Dns → TxtCodec → Zone → ChangeSet → Call (ClientState S R) (Unit {0})
  unfolding observe edit
  client_apply d t zone cs w =
      let o = c.api.applier.run zone.id (edit d t cs) w.api in
      let (answer, w') = observe (codes "apply") (λ s. (o.result, o.state)) w in
      if is_empty_changes cs then (ok tt, w) else (
        elim answer [
          | ok u ↦ ok tt
          | err e ↦ err (apply_error (wait_steps new_lock_wait o.events) e)
        ],
        w',
      )

  -- The client as the boundary of internal/provider/ports.go.
  unfoldable pub client_backend : Dns → TxtCodec → Backend (ClientState S R)
  unfolding list_zones list_records client_apply
  client_backend d t = record {
    list_zones = list_zones d;
    list_records = list_records d;
    apply = client_apply d t;
  }
