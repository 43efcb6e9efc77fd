-- ===== src/Webhook/Body.antt =====
-- internal/webhook/handler.go: `logRequestBody`, with what it uses of the package io. A byte is a
-- number.
use external_dns_iij_dpf_web.Base.{
  Bool, List, Option, [], false, if◌then◌else◌, leb, length, ltb, none, not, some, suc, true, zero,
  ℕ, ◌++◌, ◌+◌, ◌∷◌,
}
use external_dns_iij_dpf_web.Base.Int.{pos}
use external_dns_iij_dpf_web.Base.Text.{Text, codes}
use external_dns_iij_dpf_web.Config.Settings.{debug_level}
use external_dns_iij_dpf_web.Errors.{Error, Result, err, ok}
use external_dns_iij_dpf_web.Provider.Reading.{shown}
use external_dns_iij_dpf_web.Telemetry.Slog.{
  LogRecord, Logger, bool_value, error_value, fields_of, int_value, text_value,
}

-- `io.Reader` over a request's body: what it still has, and how it ends, none for io.EOF. An error
-- comes with a read of its own, and comes again.
pub record Reader : Type 0 where
  pub bytes : List ℕ
  pub ending : Option Error

-- `16 << 10`.
abbrev pub request_log_limit : ℕ
request_log_limit = 16384

unfoldable pub take {ℓ} : {A : Type ℓ} → ℕ → List A → List A
take n [] = []
take zero (x ∷ xs) = []
take (suc n) (x ∷ xs) = x ∷ take n xs

unfoldable pub drop {ℓ} : {A : Type ℓ} → ℕ → List A → List A
drop n [] = []
drop zero (x ∷ xs) = x ∷ xs
drop (suc n) (x ∷ xs) = drop n xs

abbrev read_to_end : Reader → Result (List ℕ)
read_to_end r = elim r.ending [ none ↦ ok r.bytes | some e ↦ err e ]

-- `io.ReadAll(io.LimitReader(r, n))`, and the reader behind it.
unfoldable pub read_limited : ℕ → Reader → Result (List ℕ) × Reader
unfolding take drop
read_limited n r =
    if leb n (length r.bytes)
    then (ok (take n r.bytes), record r { bytes = drop n r.bytes })
    else (read_to_end r, record r { bytes = [] })

-- `io.MultiReader(bytes.NewReader(raw), r)`.
abbrev pub multi_reader : List ℕ → Reader → Reader
multi_reader raw r = record r { bytes = raw ++ r.bytes }

-- What is shown of the bytes that were read, and whether that is not all.
unfoldable pub shown_body : List ℕ → List ℕ × Bool
unfolding take
shown_body raw =
    if ltb request_log_limit (length raw) then (take request_log_limit raw, true) else (raw, false)

abbrev pub body_line : Text → List ℕ → List ℕ × Bool → LogRecord
body_line path raw (shown, truncated) = record {
  level = debug_level;
  message = codes "要求本文";
  attrs = fields_of (
      (codes "path", text_value path)
      ∷ (codes "bytes", int_value (pos (length raw)))
      ∷ (codes "truncated", bool_value truncated)
      ∷ (codes "body", text_value shown)
      ∷ []);
}

abbrev unreadable_line : Error → LogRecord
unreadable_line e = record {
  level = debug_level;
  message = codes "要求本文を読めませんでした";
  attrs = fields_of ((codes "error", error_value e) ∷ []);
}

module _ {L : Type 0} (g : Logger L) (path : Text) where
  -- The rest of the function, behind the reading.
  abbrev pub logged_body : Result (List ℕ) × Reader → L → Reader × L
  logged_body (err e, rest) l = (rest, g.write (unreadable_line e) l)
  logged_body (ok raw, rest) l =
      (multi_reader raw rest, g.write (body_line path raw (shown_body raw)) l)

  unfoldable pub log_request_body : Reader → L → Reader × L
  unfolding read_limited shown_body
  log_request_body r l =
      if not (g.enabled debug_level)
      then (r, l)
      else logged_body (read_limited (request_log_limit + 1) r) l
