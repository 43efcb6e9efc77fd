-- ===== src/Webhook/Rereading.antt =====
-- Lemmas on `logRequestBody` of internal/webhook/handler.go: what it shows, and what is left to read.
use external_dns_iij_dpf_web.Base.{
  Bool, Bool-cases, List, [], ap, arith, false, if◌then◌else◌, inl, inr, leb, length, ltb, none,
  refl, suc, sym, true, zero, ℕ, ◌++◌, ◌+◌, ◌<◌, ◌∙◌, ◌∷◌, ◌≡◌, ◌≤◌, ◌⊎◌,
}
use external_dns_iij_dpf_web.Base.Int.{pos}
use external_dns_iij_dpf_web.Base.Text.{Text, codes}
use external_dns_iij_dpf_web.Config.Settings.{debug_level}
use external_dns_iij_dpf_web.Errors.{Result, err, ok, ok-injective}
use external_dns_iij_dpf_web.Telemetry.Slog.{
  LogRecord, Logger, bool_value, fields_of, int_value, text_value,
}
use external_dns_iij_dpf_web.Webhook.Body.{
  Reader, body_line, drop, log_request_body, logged_body, read_limited, request_log_limit,
  shown_body, take,
}
use mathlib.Core.List.{append-nil}
use mathlib.Core.Path.{ap₂}

take-append-drop : (n : ℕ) (xs : List ℕ) → take n xs ++ drop n xs ≡ xs
unfolding take drop
take-append-drop n [] = refl
take-append-drop zero (x ∷ xs) = refl
take-append-drop (suc n) (x ∷ xs) = ap (λ (l : List ℕ). x ∷ l) (take-append-drop n xs)

take-take : (n : ℕ) (xs : List ℕ) → take n (take (suc n) xs) ≡ take n xs
unfolding take
take-take n [] = refl
take-take zero (x ∷ xs) = refl
take-take (suc n) (x ∷ xs) = ap (λ (l : List ℕ). x ∷ l) (take-take n xs)

length-take : (n : ℕ) (xs : List ℕ) → n ≤ length xs → length (take n xs) ≡ n
unfolding take
length-take n [] h = omega arith
length-take zero (x ∷ xs) h = refl
length-take (suc n) (x ∷ xs) h = ap suc (length-take n xs (omega arith))

take-short : (n : ℕ) (xs : List ℕ) → length xs ≤ n → take n xs ≡ xs
unfolding take
take-short n [] h = refl
take-short zero (x ∷ xs) h = absurd (omega arith)
take-short (suc n) (x ∷ xs) h = ap (λ (l : List ℕ). x ∷ l) (take-short n xs (omega arith))

module _ {L : Type 0} (g : Logger L) (path : Text) where
  logged_body-keeps :
      (n : ℕ) (r : Reader) (l : L)
      → (r.ending ≡ none) ⊎ (n ≤ length r.bytes)
      → (logged_body g path (read_limited n r) l).0 ≡ r
  unfolding read_limited
  logged_body-keeps n r l h = elim (Bool-cases (leb n (length r.bytes))) [
    | inl y ↦ rw y (ap (λ (bs : List ℕ). record r { bytes = bs }) (take-append-drop n r.bytes))
    | inr k ↦ elim h [
      | inl e ↦
          rw (k, e)
            (ap (λ (bs : List ℕ). record { bytes = bs; ending = none }) (append-nil r.bytes))
      | inr m ↦ absurd (ground arith)
    ]
  ]

  -- A body that ends without an error, or that is longer than the limit, is handed on whole, at any
  -- level of the logger: what was read for the log comes before what was not.
  pub log_request_body-keeps :
      (r : Reader) (l : L)
      → (r.ending ≡ none) ⊎ (request_log_limit < length r.bytes)
      → (log_request_body g path r l).0 ≡ r
  unfolding log_request_body
  log_request_body-keeps r l h = elim (Bool-cases (g.enabled debug_level)) [
    | inl y ↦ rw y (
        logged_body-keeps (request_log_limit + 1) r l
          (elim h [ inl e ↦ inl e | inr m ↦ inr (omega arith) ]))
    | inr n ↦ rw n refl
  ]

-- What is shown under a limit.
abbrev shown : ℕ → List ℕ → List ℕ × Bool
shown n raw = if ltb n (length raw) then (take n raw, true) else (raw, false)

-- Reading one byte beyond the limit tells whether there are more.
shown-take :
    (n : ℕ) (xs : List ℕ)
    → suc n ≤ length xs
    → shown n (take (suc n) xs) ≡ (take n xs, ltb n (length xs))
shown-take n xs h =
    let longer : ltb n (length xs) ≡ true = ground arith in
    let one_more : ltb n (length (take (suc n) xs)) ≡ true =
      rw (length-take (suc n) xs h) (ground arith) in
    rw (longer, one_more) (ap (λ (bs : List ℕ). (bs, true)) (take-take n xs))

shown-short : (n : ℕ) (xs : List ℕ) → length xs ≤ n → shown n xs ≡ (take n xs, ltb n (length xs))
shown-short n xs h =
    let short : ltb n (length xs) ≡ false = ground arith in
    rw short (ap (λ (bs : List ℕ). (bs, false)) (sym (take-short n xs h)))

module _ (n : ℕ) (xs : List ℕ) where
  shown-taken : shown n (take (suc n) xs) ≡ (take n xs, ltb n (length xs))
  shown-taken = elim (Bool-cases (leb (suc n) (length xs))) [
    | inl y ↦ shown-take n xs (ground arith)
    | inr k ↦
        ap (λ (bs : List ℕ). shown n bs) (take-short (suc n) xs (ground arith))
        ∙ shown-short n xs (ground arith)
  ]

  length-taken : length (take (suc n) xs) ≡ (if ltb n (length xs) then suc n else length xs)
  length-taken = elim (Bool-cases (ltb n (length xs))) [
    | inl y ↦ rw y (length-take (suc n) xs (ground arith))
    | inr k ↦ rw k (ap (λ (bs : List ℕ). length bs) (take-short (suc n) xs (ground arith)))
  ]

read_limited-take :
    (n : ℕ) (r : Reader)
    → (r.ending ≡ none) ⊎ (n ≤ length r.bytes)
    → (read_limited n r).0 ≡ ok (take n r.bytes)
unfolding read_limited
read_limited-take n r h = elim (Bool-cases (leb n (length r.bytes))) [
  | inl y ↦ rw y refl
  | inr k ↦ elim h [
    | inl e ↦ rw (k, e) (ap (λ (bs : List ℕ). ok bs) (sym (take-short n r.bytes (ground arith))))
    | inr m ↦ absurd (ground arith)
  ]
]

-- The line for a body: the first 16384 bytes of it, whether there are more, and how many there are,
-- but for those behind the one that tells.
abbrev pub line_for : Text → List ℕ → LogRecord
line_for path bytes = record {
  level = debug_level;
  message = codes "要求本文";
  attrs = fields_of (
      (codes "path", text_value path)
      ∷ (codes "bytes", int_value (pos (if ltb 16384 (length bytes) then 16385 else length bytes)))
      ∷ (codes "truncated", bool_value (ltb 16384 (length bytes)))
      ∷ (codes "body", text_value (take 16384 bytes))
      ∷ []);
}

module _ {L : Type 0} (g : Logger L) (path : Text) where
  logged_body-line :
      (p : Result (List ℕ) × Reader) (raw : List ℕ) (l : L)
      → p.0 ≡ ok raw
      → (logged_body g path p l).1 ≡ g.write (body_line path raw (shown_body raw)) l
  logged_body-line (err e, rest) raw l h = cc h
  logged_body-line (ok bs, rest) raw l h =
      ap (λ (bs : List ℕ). g.write (body_line path bs (shown_body bs)) l) (ok-injective h)

  line-taken :
      (bytes : List ℕ)
      → body_line path (take (suc 16384) bytes) (shown_body (take (suc 16384) bytes))
        ≡ line_for path bytes
  unfolding shown_body
  line-taken bytes =
      ap₂
        (λ (n : ℕ) (s : List ℕ × Bool). record {
          level = debug_level;
          message = codes "要求本文";
          attrs = fields_of (
              (codes "path", text_value path)
              ∷ (codes "bytes", int_value (pos n))
              ∷ (codes "truncated", bool_value s.1)
              ∷ (codes "body", text_value s.0)
              ∷ []);
        })
        (length-taken 16384 bytes) (shown-taken 16384 bytes)

  -- At the debug level one line is logged for a body that ends without an error or is longer than
  -- the limit: it shows the first 16384 bytes, says that there are more exactly if there are, and
  -- counts the bytes, those behind the first 16385 left out.
  pub log_request_body-line_for :
      (r : Reader) (l : L)
      → g.enabled debug_level ≡ true
      → (r.ending ≡ none) ⊎ (request_log_limit < length r.bytes)
      → (log_request_body g path r l).1 ≡ g.write (line_for path r.bytes) l
  unfolding log_request_body
  log_request_body-line_for r l y h =
      let read : (read_limited (request_log_limit + 1) r).0 ≡ ok (take (suc 16384) r.bytes) =
        read_limited-take (request_log_limit + 1) r
          (elim h [ inl e ↦ inl e | inr m ↦ inr (omega arith) ]) in
      rw y (
        logged_body-line (read_limited (request_log_limit + 1) r) (take (suc 16384) r.bytes) l read
        ∙ ap (λ (x : LogRecord). g.write x l) (line-taken r.bytes))
