-- ===== src/Server/Together.antt =====
-- Lemmas on Start and Shutdown of internal/server/server.go: the two listeners go together.
use external_dns_iij_dpf_web.Base.{Bool-cases, List, [], false, inl, inr, refl, sym, true, ◌∷◌, ◌≡◌}
use external_dns_iij_dpf_web.Base.Text.{Text}
use external_dns_iij_dpf_web.Errors.{Result, err, is_ok, ok}
use external_dns_iij_dpf_web.Server.Lifecycle.{
  Server, ServerEvent, exposed_ending, exposed_served, new_server, provider_ending, provider_served,
  server_step, server_steps, shutdown, start, starting, stopping,
}

-- A server that is not started has no listener open.
abbrev pub IsClosed : Server → Type 0
IsClosed s = s.started ≡ false → (s.provider_open ≡ false) × (s.exposed_open ≡ false)

server_step-IsClosed : (s : Server) (e : ServerEvent) → IsClosed s → IsClosed (server_step s e)
unfolding server_step start provider_served exposed_served shutdown
server_step-IsClosed s (provider_ending e) h = λ k. (refl, (h k).1)
server_step-IsClosed s (exposed_ending e) h = λ k. ((h k).0, refl)
server_step-IsClosed s (stopping e f) h = elim (Bool-cases s.started) [
  | inl y ↦ rw y (λ k. (refl, refl))
  | inr n ↦ rw n (λ k. h n)
]
server_step-IsClosed s (starting (err e) x) h = elim (Bool-cases s.started) [
  | inl y ↦ rw y (λ k. cc k)
  | inr n ↦ rw n (λ k. h n)
]
server_step-IsClosed s (starting (ok p) (err e)) h = elim (Bool-cases s.started) [
  | inl y ↦ rw y (λ k. cc k)
  | inr n ↦ rw n (λ k. (refl, (h n).1))
]
server_step-IsClosed s (starting (ok p) (ok x)) h = elim (Bool-cases s.started) [
  | inl y ↦ rw y (λ k. cc k)
  | inr n ↦ rw n (λ k. cc k)
]

server_steps-keeps_IsClosed :
    (s : Server) (es : List ServerEvent) → IsClosed s → IsClosed (server_steps s es)
unfolding server_steps
server_steps-keeps_IsClosed s [] h = h
server_steps-keeps_IsClosed s (e ∷ es) h =
    server_steps-keeps_IsClosed (server_step s e) es (server_step-IsClosed s e h)

-- Whatever happened to a server, in whatever order, it has no listener open while it is not started:
-- neither before the first start, nor behind a failed start or a shutdown.
pub server_steps-IsClosed :
    (a b : Text) (es : List ServerEvent) → IsClosed (server_steps (new_server a b) es)
unfolding new_server
server_steps-IsClosed a b es = server_steps-keeps_IsClosed (new_server a b) es (λ h. (refl, refl))

-- Both listeners are open.
abbrev pub IsServing : Server → Type 0
IsServing s = (s.started ≡ true) × (s.provider_open ≡ true) × (s.exposed_open ≡ true)

-- The same listeners are open.
abbrev pub IsSame : Server → Server → Type 0
IsSame s s' =
    (s'.started ≡ s.started)
    × (s'.provider_open ≡ s.provider_open)
    × (s'.exposed_open ≡ s.exposed_open)

start_from_IsClosed :
    (p x : Result Text) (s : Server)
    → IsClosed s
    → ((start p x s).0 ≡ ok tt → IsServing (start p x s).1)
      × (is_ok (start p x s).0 ≡ false → IsSame s (start p x s).1)
unfolding start
start_from_IsClosed (err e) x s h = elim (Bool-cases s.started) [
  | inl y ↦ rw y (λ k. cc k, λ k. (refl, refl, refl))
  | inr n ↦ rw n (λ k. cc k, λ k. (refl, refl, refl))
]
start_from_IsClosed (ok p) (err e) s h = elim (Bool-cases s.started) [
  | inl y ↦ rw y (λ k. cc k, λ k. (refl, refl, refl))
  | inr n ↦ rw n (λ k. cc k, λ k. (refl, sym (h n).0, refl))
]
start_from_IsClosed (ok p) (ok x) s h = elim (Bool-cases s.started) [
  | inl y ↦ rw y (λ k. cc k, λ k. (refl, refl, refl))
  | inr n ↦ rw n (λ k. (refl, refl, refl), λ k. cc k)
]

-- Whatever happened to a server before, a start that succeeds has both listeners open, and a start
-- that fails leaves both as they were: it never leaves one of them open alone.
pub start_together :
    (a b : Text) (es : List ServerEvent) (p x : Result Text)
    → ((start p x (server_steps (new_server a b) es)).0 ≡ ok tt
        → IsServing (start p x (server_steps (new_server a b) es)).1)
      × (is_ok (start p x (server_steps (new_server a b) es)).0 ≡ false
          → IsSame
              (server_steps (new_server a b) es)
              (start p x (server_steps (new_server a b) es)).1)
start_together a b es p x =
    start_from_IsClosed p x (server_steps (new_server a b) es) (server_steps-IsClosed a b es)
