-- ===== src/Telemetry/Redacted.antt =====
-- Lemmas on the logger of internal/telemetry/log.go: what it writes tells nothing of a secret.
use external_dns_iij_dpf_web.Base.{
  List, [], ap, arith, if◌then◌else◌, inl, inr, leb, refl, sym, true, ℕ, ◌++◌, ◌∙◌, ◌∷◌, ◌≡◌, ◌⊎◌,
}
use external_dns_iij_dpf_web.Base.Text.{Text, contains_text, is_prefix}
use external_dns_iij_dpf_web.Config.Settings.{Level}
use external_dns_iij_dpf_web.Telemetry.Log.{
  is_secret_key, new_logger, redact_secrets, secret_attr_keys, to_lower,
}
use external_dns_iij_dpf_web.Telemetry.Slog.{
  Attr, Attrs, JsonHandler, LogCall, LogRecord, LogValue, adding_attrs, append_attrs, attr, group,
  json_handler, json_line, json_with_attrs, json_with_group, log, log_call, log_calls, logging,
  more_attrs, no_attrs, opening_group, rank, replace_attr, replace_attrs,
}
use mathlib.Core.List.{Memᴰ}
use mathlib.Core.Path.{ap₂}

is_prefix-append : (s t : Text) → is_prefix s (s ++ t) ≡ true
is_prefix-append [] t = refl
is_prefix-append (c ∷ s) t = ground (arith, is_prefix-append s t)

contains_text-nil : (s : Text) → contains_text [] s ≡ true
unfolding contains_text
contains_text-nil [] = refl
contains_text-nil (c ∷ s) = refl

contains_text-append : (sub a b : Text) → contains_text sub (a ++ (sub ++ b)) ≡ true
unfolding contains_text
contains_text-append [] a b = contains_text-nil (a ++ b)
contains_text-append (p ∷ ps) [] b = rw (is_prefix-append (p ∷ ps) b) refl
contains_text-append (p ∷ ps) (c ∷ a) b = ground (arith, contains_text-append (p ∷ ps) a b)

is_secret_key-mem :
    (lower : ℕ → ℕ) {w : Text} (lowered : Text) (keys : List Text)
    → Memᴰ w keys
    → contains_text w lowered ≡ true
    → is_secret_key lower lowered keys ≡ true
unfolding is_secret_key
is_secret_key-mem lower lowered [] m h = elim m [ ]
is_secret_key-mem lower lowered (k ∷ keys) (Memᴰ.head e) h =
    rw (ap (λ (t : Text). contains_text t lowered) (sym e) ∙ h) refl
is_secret_key-mem lower lowered (k ∷ keys) (Memᴰ.tail m) h =
    ground (arith, is_secret_key-mem lower lowered keys m h)

-- One of the words stands somewhere in the key, upper case taken for lower case.
abbrev pub IsSecret : (ℕ → ℕ) → Text → Type 0
IsSecret lower k =
    (w : Text) × Memᴰ w secret_attr_keys × ((a b : Text) × (to_lower lower k ≡ a ++ (w ++ b)))

IsSecret-is_secret_key :
    (lower : ℕ → ℕ) (k : Text)
    → IsSecret lower k
    → is_secret_key lower (to_lower lower k) secret_attr_keys ≡ true
IsSecret-is_secret_key lower k (w, m, (a, b, e)) =
    is_secret_key-mem lower (to_lower lower k) secret_attr_keys m
      (ap (λ (t : Text). contains_text w t) e ∙ contains_text-append w a b)

module _ (lower : ℕ → ℕ) where
  -- Two attributes that differ in the values under secret keys only.
  mutual
    pub data Alike : Attr → Attr → Type 0 where
      alike_value :
          {k : Text} {v w : LogValue} → (v ≡ w) ⊎ IsSecret lower k → Alike (attr k v) (attr k w)
      alike_group : {k : Text} {us bs : Attrs} → AlikeAttrs us bs → Alike (group k us) (group k bs)

    pub data AlikeAttrs : Attrs → Attrs → Type 0 where
      alike_none : AlikeAttrs no_attrs no_attrs
      alike_more :
          {a b : Attr} {us bs : Attrs}
          → Alike a b
          → AlikeAttrs us bs
          → AlikeAttrs (more_attrs a us) (more_attrs b bs)

  -- Two calls that differ in the values under secret keys only.
  pub data AlikeCall : LogCall → LogCall → Type 0 where
    alike_logging :
        {level : Level} {message : Text} {us bs : Attrs}
        → AlikeAttrs us bs
        → AlikeCall
            (logging (record { level = level; message = message; attrs = us }))
            (logging (record { level = level; message = message; attrs = bs }))
    alike_adding :
        {us bs : Attrs} → AlikeAttrs us bs → AlikeCall (adding_attrs us) (adding_attrs bs)
    alike_opening : {k : Text} → AlikeCall (opening_group k) (opening_group k)

  pub data AlikeCalls : List LogCall → List LogCall → Type 0 where
    alike_end : AlikeCalls [] []
    alike_next :
        {c d : LogCall} {cs ds : List LogCall}
        → AlikeCall c d
        → AlikeCalls cs ds
        → AlikeCalls (c ∷ cs) (d ∷ ds)

  redact_secrets-value :
      (groups : List Text) (k : Text) (v w : LogValue)
      → (v ≡ w) ⊎ IsSecret lower k
      → redact_secrets lower groups (attr k v) ≡ redact_secrets lower groups (attr k w)
  unfolding redact_secrets
  redact_secrets-value groups k v w (inl e) =
      ap (λ (x : LogValue). redact_secrets lower groups (attr k x)) e
  redact_secrets-value groups k v w (inr secret) = rw (IsSecret-is_secret_key lower k secret) refl

  mutual
    unfolding replace_attr replace_attrs

    replace_attr-Alike :
        {a b : Attr} (groups : List Text)
        → Alike a b
        → replace_attr (redact_secrets lower) groups a
          ≡ replace_attr (redact_secrets lower) groups b
    replace_attr-Alike groups (alike_value {k} {v} {w} h) = redact_secrets-value groups k v w h
    replace_attr-Alike groups (alike_group {k} h) =
        ap (λ (more : Attrs). group k more) (replace_attrs-Alike (groups ++ k ∷ []) h)

    replace_attrs-Alike :
        {us bs : Attrs} (groups : List Text)
        → AlikeAttrs us bs
        → replace_attrs (redact_secrets lower) groups us
          ≡ replace_attrs (redact_secrets lower) groups bs
    replace_attrs-Alike groups alike_none = refl
    replace_attrs-Alike groups (alike_more h more) =
        ap₂ (λ (a : Attr) (rest : Attrs). more_attrs a rest) (replace_attr-Alike groups h)
          (replace_attrs-Alike groups more)

  -- A handler of the shape that `NewLogger` makes, at some point of its use.
  abbrev redacting : Level → List Text → (Attrs → Attrs) → JsonHandler
  redacting least groups around = record {
    least = least;
    replace = redact_secrets lower;
    groups = groups;
    around = around;
  }

  log-replace_attrs :
      (us bs : Attrs) (level : Level) (message : Text) (h : JsonHandler) (lines : List LogRecord)
      → replace_attrs h.replace h.groups us ≡ replace_attrs h.replace h.groups bs
      → log json_handler h (record { level = level; message = message; attrs = us }) lines
        ≡ log json_handler h (record { level = level; message = message; attrs = bs }) lines
  unfolding log json_handler json_line
  log-replace_attrs us bs level message h lines e =
      ap
        (λ (more : Attrs).
          let line : LogRecord = record {
            level = level;
            message = message;
            attrs = h.around more;
          } in
          if leb (rank h.least) (rank level) then lines ++ line ∷ [] else lines)
        e

  log_calls-AlikeCalls :
      {cs ds : List LogCall} (least : Level) (groups : List Text) (around : Attrs → Attrs)
      (lines : List LogRecord)
      → AlikeCalls cs ds
      → log_calls json_handler cs (redacting least groups around, lines)
        ≡ log_calls json_handler ds (redacting least groups around, lines)
  unfolding log_calls log_call json_handler json_with_attrs json_with_group
  log_calls-AlikeCalls least groups around lines alike_end = refl
  log_calls-AlikeCalls {ds = d ∷ ds} least groups around lines
        (alike_next (alike_logging {level} {message} h) more) =
      log_calls-AlikeCalls least groups around _ more
      ∙ ap
          (λ (written : List LogRecord).
            log_calls json_handler ds (redacting least groups around, written))
          (log-replace_attrs _ _ level message (redacting least groups around) lines
            (replace_attrs-Alike groups h))
  log_calls-AlikeCalls {ds = d ∷ ds} least groups around lines
        (alike_next (alike_adding {us} {bs} h) more) =
      log_calls-AlikeCalls least groups _ lines more
      ∙ ap
          (λ (added : Attrs).
            log_calls json_handler ds
              (redacting least groups (λ inner. around (append_attrs added inner)), lines))
          (replace_attrs-Alike groups h)
  log_calls-AlikeCalls least groups around lines (alike_next (alike_opening {k}) more) =
      log_calls-AlikeCalls least (groups ++ k ∷ [])
        (λ inner. around (more_attrs (group k inner) no_attrs)) lines more

  -- Two runs of logging that differ in nothing but values whose keys contain one of the secret words
  -- write the same lines, with any attributes and groups that are put around a record meanwhile: what
  -- is written tells nothing of such a value.
  pub log_calls-hides :
      {cs ds : List LogCall} (level : Level) (lines : List LogRecord)
      → AlikeCalls cs ds
      → (log_calls json_handler cs (new_logger lower level, lines)).1
        ≡ (log_calls json_handler ds (new_logger lower level, lines)).1
  unfolding new_logger
  log_calls-hides level lines h =
      ap (λ (p : JsonHandler × List LogRecord). p.1)
        (log_calls-AlikeCalls level [] (λ more. more) lines h)
