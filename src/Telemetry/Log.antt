-- ===== src/Telemetry/Log.antt =====
-- internal/telemetry/log.go: the logger that hides secrets, and the handler that writes to two.
use external_dns_iij_dpf_web.Base.{Bool, List, [], false, if◌then◌else◌, map, true, ℕ, ◌||◌, ◌∷◌}
use external_dns_iij_dpf_web.Base.Text.{Text, codes, contains_text}
use external_dns_iij_dpf_web.Config.Settings.{Level}
use external_dns_iij_dpf_web.Errors.{Result, ok}
use external_dns_iij_dpf_web.Telemetry.Slog.{
  Attr, HandlerOf, JsonHandler, LogRecord, attr, group, new_json_handler, text_value,
}

abbrev pub redacted_placeholder : Text
redacted_placeholder = codes "[REDACTED]"

abbrev pub secret_attr_keys : List Text
secret_attr_keys =
    codes "token"
    ∷ codes "authorization"
    ∷ codes "api_token"
    ∷ codes "apitoken"
    ∷ codes "dpf_api_token"
    ∷ codes "secret"
    ∷ codes "password"
    ∷ codes "credential"
    ∷ []

-- `lower` is `unicode.ToLower`, whose table is the package's data.
module _ (lower : ℕ → ℕ) where
  -- `strings.ToLower`.
  abbrev pub to_lower : Text → Text
  to_lower s = map lower s

  -- The loop over the keys.
  unfoldable pub is_secret_key : Text → List Text → Bool
  is_secret_key lowered [] = false
  is_secret_key lowered (s ∷ keys) =
      let rest = is_secret_key lowered keys in if contains_text s lowered then true else rest

  unfoldable pub redact_secrets : List Text → Attr → Attr
  unfolding is_secret_key
  redact_secrets groups (attr k v) =
      if is_secret_key (to_lower k) secret_attr_keys
      then attr k (text_value redacted_placeholder)
      else attr k v
  redact_secrets groups (group k more) =
      if is_secret_key (to_lower k) secret_attr_keys
      then attr k (text_value redacted_placeholder)
      else group k more

  unfoldable pub new_logger : Level → JsonHandler
  unfolding redact_secrets
  new_logger level = new_json_handler level redact_secrets

module _ {H K S T : Type 0} (p : HandlerOf H S) (q : HandlerOf K T) where
  -- `teeHandler.Handle`: to the primary, then to the secondary, whose error is dropped.
  unfoldable pub tee_handle : H × K → LogRecord → S × T → Result (Unit {0}) × (S × T)
  tee_handle (h, k) r (s, t) =
      let (primary_err, s') = if p.enabled h r.level then p.handle h r s else (ok tt, s) in
      let (dropped, t') = if q.enabled k r.level then q.handle k r t else (ok tt, t) in
      (primary_err, (s', t'))

  -- `teeHandler`, and `WithAdditionalSink`, which makes one of the handlers of two loggers.
  unfoldable pub tee_handler : HandlerOf (H × K) (S × T)
  unfolding tee_handle
  tee_handler = record {
    enabled = λ (h, k) level. p.enabled h level || q.enabled k level;
    handle = tee_handle;
    with_attrs = λ (h, k) more. (p.with_attrs h more, q.with_attrs k more);
    with_group = λ (h, k) name. (p.with_group h name, q.with_group k name);
  }

  abbrev pub with_additional_sink : H → K → H × K
  with_additional_sink base extra = (base, extra)
