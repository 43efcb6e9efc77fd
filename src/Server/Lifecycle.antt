-- ===== src/Server/Lifecycle.antt =====
-- internal/server/server.go: starting, serving and stopping. `mu` makes Start and Shutdown one step
-- each. Listening, serving and shutting down are the package net/http's: what they answer is an
-- argument. The paths of the exposed listener are in Server/Exposed.
use external_dns_iij_dpf_web.Base.{
  Bool, List, Option, [], false, if◌then◌else◌, none, not, some, true, ◌++◌, ◌∷◌,
}
use external_dns_iij_dpf_web.Base.Text.{Text}
use external_dns_iij_dpf_web.Errors.{Error, Result, err, ok, plain, wrap, wrap2}

-- `provider_ln` and `exposed_ln` are the addresses of the listeners, none for nil; a listener is
-- open until its `Serve` ends or `http.Server.Shutdown` closes it.
pub record Server : Type 0 where
  pub provider_addr : Text
  pub exposed_addr : Text
  pub provider_ln : Option Text
  pub exposed_ln : Option Text
  pub provider_open : Bool
  pub exposed_open : Bool
  pub started : Bool
  -- What went into the channel `errs`.
  pub errs : List (Option Error)

unfoldable pub new_server : Text → Text → Server
new_server provider_addr exposed_addr = record {
  provider_addr = provider_addr;
  exposed_addr = exposed_addr;
  provider_ln = none;
  exposed_ln = none;
  provider_open = false;
  exposed_open = false;
  started = false;
  errs = [];
}

-- What is left when the second listener cannot be opened: the first is closed again.
abbrev close_provider : Server → Server
close_provider s = record s { provider_open = false }

abbrev open_provider : Server → Server
open_provider s = record s { provider_open = true }

-- `Start`, with what the two calls of `Listen` answer: a listener's address or an error.
unfoldable pub start : Result Text → Result Text → Server → Result (Unit {0}) × Server
start (err e) exposed s = if s.started then (err plain, s) else (err (wrap e), s)
start (ok p) (err e) s =
    if s.started then (err plain, s) else (err (wrap e), close_provider (open_provider s))
start (ok p) (ok x) s = if s.started then (err plain, s) else (
  ok tt,
  record s {
    provider_ln = some p;
    exposed_ln = some x;
    provider_open = true;
    exposed_open = true;
    started = true;
  },
)

-- `serve` ends, with what it sends: the error of `Serve`, none for ErrServerClosed.
unfoldable pub provider_served : Option Error → Server → Server
provider_served e s = record s { provider_open = false; errs = s.errs ++ e ∷ [] }

unfoldable pub exposed_served : Option Error → Server → Server
exposed_served e s = record s { exposed_open = false; errs = s.errs ++ e ∷ [] }

-- `errors.Join`.
abbrev pub join_errors : Option Error → Option Error → Result (Unit {0})
join_errors none none = ok tt
join_errors (some e) none = err (wrap e)
join_errors none (some f) = err (wrap f)
join_errors (some e) (some f) = err (wrap2 e f)

-- `Shutdown`, with what the two calls of `http.Server.Shutdown` answer; each closes its listener
-- first, as net/http documents; one that `Serve` has not been called for yet, which that call closes
-- at once, counts as closed.
unfoldable pub shutdown : Option Error → Option Error → Server → Result (Unit {0}) × Server
shutdown e f s = if not s.started then (ok tt, s) else (
  join_errors e f,
  record s { provider_open = false; exposed_open = false; started = false },
)

abbrev pub listener_addr : Option Text → Text → Text
listener_addr none fallback = fallback
listener_addr (some a) fallback = a

-- What happens to a server.
pub data ServerEvent : Type 0 where
  starting : Result Text → Result Text → ServerEvent
  provider_ending exposed_ending : Option Error → ServerEvent
  stopping : Option Error → Option Error → ServerEvent

unfoldable pub server_step : Server → ServerEvent → Server
unfolding start provider_served exposed_served shutdown
server_step s (starting p x) = (start p x s).1
server_step s (provider_ending e) = provider_served e s
server_step s (exposed_ending e) = exposed_served e s
server_step s (stopping e f) = (shutdown e f s).1

unfoldable pub server_steps : Server → List ServerEvent → Server
unfolding server_step
server_steps s [] = s
server_steps s (e ∷ es) = server_steps (server_step s e) es
