-- ===== src/Errors.antt =====
-- Go errors as values: the sentinels, the error types that `errors.As` looks for, and the wrapping
-- of `fmt.Errorf` with `%w`. A message without `%w` decides nothing and is left out, but for the
-- texts that the program reads or carries on: an API error's `Error()` and body, and what a token
-- source says. (internal/provider/ports.go, internal/dnsname/name.go, internal/config/config.go,
-- internal/dpf/errors.go)
use external_dns_iij_dpf_web.Base.{
  Bool, ap, false, inl, inr, nat_eq, refl, true, ℕ, ◌&&◌, ◌||◌, ◌≡◌, ◌⊎◌,
}
use external_dns_iij_dpf_web.Base.Text.{Text}

-- The error variables: provider's four, dnsname's and config's, then those of dpf-go's `utils`
-- and of `context`.
pub data Sentinel : Type 0 where
  err_temporary err_permanent err_unsupported_type err_zone_not_found : Sentinel
  err_invalid_name err_missing_required err_invalid err_help_requested : Sentinel
  utils_zone_not_found still_lock label_limit not_lock_holder skip_apply : Sentinel
  deadline_exceeded canceled : Sentinel

-- The identity of a variable.
abbrev pub identity : Sentinel → ℕ
identity err_temporary = 0
identity err_permanent = 1
identity err_unsupported_type = 2
identity err_zone_not_found = 3
identity err_invalid_name = 4
identity err_missing_required = 5
identity err_invalid = 6
identity err_help_requested = 7
identity utils_zone_not_found = 8
identity still_lock = 9
identity label_limit = 10
identity not_lock_holder = 11
identity skip_apply = 12
identity deadline_exceeded = 13
identity canceled = 14

pub data Error : Type 0 where
  sentinel : Sentinel → Error
  -- An error that nothing is asked about.
  plain : Error
  -- `*utils.TokenError`, with the text that the token source gave.
  token_error : Text → Error
  -- `*apiError`: status, wrapped error and detail.
  api_error : ℕ → Error → Text → Error
  -- `dpf.GenericOpenAPIError`: its `Error()` and its `Body()`.
  generic_error : Text → Text → Error
  -- A `net.Error`.
  net_error : Error
  -- `fmt.Errorf` with one `%w`, with two, and with one before a text that is carried on.
  wrap : Error → Error
  wrap2 : Error → Error → Error
  wrap_text : Error → Text → Error

-- `errors.Is(err, target)` for a sentinel: anywhere in the tree of wrapped errors.
unfoldable pub is : Sentinel → Error → Bool
is t (sentinel s) = nat_eq (identity s) (identity t)
is t plain = false
is t (token_error text) = false
is t (api_error status e detail) = is t e
is t (generic_error text body) = false
is t net_error = false
is t (wrap e) = is t e
is t (wrap2 e f) = is t e || is t f
is t (wrap_text e text) = is t e

-- A call that returns a value and an error, one of which is set.
pub data Result {ℓ} (A : Type ℓ) : Type ℓ where
  err : Error → Result A
  ok : A → Result A

-- The call, and the code behind `if err != nil { return err }`.
infixl 5 ◌>>=◌ ◌>>◌
abbrev pub ◌>>=◌ {ℓ κ} : {T : Type ℓ} {U : Type κ} (m : Result T) (next : T → Result U) → Result U
err failure >>= next = err failure
ok value >>= next = next value

abbrev pub ◌>>◌ {ℓ} : {U : Type ℓ} (m : Result (Unit {0})) (next : Result U) → Result U
m >> next = m >>= λ u. next

pub Result-cases {ℓ} :
    {A : Type ℓ} (r : Result A) → ((a : A) × (r ≡ ok a)) ⊎ ((e : Error) × (r ≡ err e))
Result-cases (ok a) = inl (a, refl)
Result-cases (err e) = inr (e, refl)

-- Inversion of a call that succeeds.
pub >>=-eq-ok {ℓ κ} :
    {T : Type ℓ} {U : Type κ} (m : Result T) (next : T → Result U) {u : U}
    → (m >>= next) ≡ ok u
    → (t : T) × (m ≡ ok t) × (next t ≡ ok u)
>>=-eq-ok (err failure) next e = cc e
>>=-eq-ok (ok value) next e = (value, refl, e)

pub ok-injective {ℓ} : {A : Type ℓ} {a b : A} → ok a ≡ ok b → a ≡ b
ok-injective {A} {a} {b} h = ap (λ (r : Result A). elim r [ ok x ↦ x | err e ↦ a ]) h

pub err-injective {ℓ} : {A : Type ℓ} {e f : Error} → ◌≡◌ {A = Result A} (err e) (err f) → e ≡ f
err-injective {A} {e} {f} h = ap (λ (r : Result A). elim r [ ok x ↦ e | err g ↦ g ]) h

abbrev pub is_ok {ℓ} : {A : Type ℓ} → Result A → Bool
is_ok (ok a) = true
is_ok (err e) = false

pub is_ok->>= {ℓ κ} :
    {A : Type ℓ} {B : Type κ} (m : Result A) (f : A → Result B) (b : Bool)
    → ((a : A) → m ≡ ok a → is_ok (f a) ≡ b)
    → is_ok (m >>= f) ≡ (is_ok m && b)
is_ok->>= (ok a) f b h = h a refl
is_ok->>= (err e) f b h = refl

-- A call with nothing behind it that can fail.
pub is_ok-map {ℓ κ} :
    {A : Type ℓ} {B : Type κ} (m : Result A) (f : A → B) → is_ok (m >>= λ a. ok (f a)) ≡ is_ok m
is_ok-map (ok a) f = refl
is_ok-map (err e) f = refl

-- What a failed call's error has: nothing is asked of a success.
abbrev pub OnError {ℓ} : {A : Type ℓ} → (Error → Type 0) → Result A → Type 0
OnError P (ok a) = Unit
OnError P (err e) = P e

abbrev pub IsPermanent : Error → Type 0
IsPermanent e = is err_permanent e ≡ true

abbrev pub IsTemporary : Error → Type 0
IsTemporary e = is err_temporary e ≡ true

pub OnError->>= {ℓ κ} :
    {A : Type ℓ} {B : Type κ} (P : Error → Type 0) (m : Result A) (f : A → Result B)
    → OnError P m
    → ((a : A) → OnError P (f a))
    → OnError P (m >>= f)
OnError->>= P (ok a) f h k = k a
OnError->>= P (err e) f h k = h
