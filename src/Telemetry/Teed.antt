-- ===== src/Telemetry/Teed.antt =====
-- Lemmas on `teeHandler` of internal/telemetry/log.go: neither handler notices the other.
use external_dns_iij_dpf_web.Base.{Bool-cases, List, [], inl, inr, refl, ◌∷◌, ◌≡◌}
use external_dns_iij_dpf_web.Telemetry.Log.{tee_handle, tee_handler, with_additional_sink}
use external_dns_iij_dpf_web.Telemetry.Slog.{
  HandlerOf, LogCall, LogRecord, adding_attrs, log, log_call, log_calls, logging, opening_group,
}

module _ {H K S T : Type 0} (p : HandlerOf H S) (q : HandlerOf K T) where
  log-tee_handler :
      (h : H) (k : K) (r : LogRecord) (s : S) (t : T)
      → log (tee_handler p q) (h, k) r (s, t) ≡ (log p h r s, log q k r t)
  unfolding log tee_handler tee_handle
  log-tee_handler h k r s t = elim (Bool-cases (p.enabled h r.level)) [
    | inl y ↦ elim (Bool-cases (q.enabled k r.level)) [
      | inl z ↦ rw (y, z) refl
      | inr n ↦ rw (y, n) refl
    ]
    | inr m ↦ elim (Bool-cases (q.enabled k r.level)) [
      | inl z ↦ rw (m, z) refl
      | inr n ↦ rw (m, n) refl
    ]
  ]

  log_call-tee_handler :
      (c : LogCall) (h : H) (k : K) (s : S) (t : T)
      → log_call (tee_handler p q) c ((h, k), (s, t)) ≡ (
        ((log_call p c (h, s)).0, (log_call q c (k, t)).0),
        ((log_call p c (h, s)).1, (log_call q c (k, t)).1),
      )
  unfolding log_call
  log_call-tee_handler (logging r) h k s t = rw (log-tee_handler h k r s t) refl
  log_call-tee_handler (adding_attrs more) h k s t = unfold tee_handler in refl
  log_call-tee_handler (opening_group name) h k s t = unfold tee_handler in refl

  -- With an additional sink, each of the two handlers ends in the state, and has written, what it
  -- would have without the other, over any calls of the logger: what becomes of the sink decides
  -- nothing for the base.
  pub log_calls-tee_handler :
      (cs : List LogCall) (h : H) (k : K) (s : S) (t : T)
      → log_calls (tee_handler p q) cs (with_additional_sink p q h k, (s, t)) ≡ (
        ((log_calls p cs (h, s)).0, (log_calls q cs (k, t)).0),
        ((log_calls p cs (h, s)).1, (log_calls q cs (k, t)).1),
      )
  unfolding log_calls
  log_calls-tee_handler [] h k s t = refl
  log_calls-tee_handler (c ∷ cs) h k s t = rw (log_call-tee_handler c h k s t) (
      log_calls-tee_handler cs (log_call p c (h, s)).0 (log_call q c (k, t)).0
        (log_call p c (h, s)).1 (log_call q c (k, t)).1)
