-- ===== src/Dpf/Waiting.antt =====
-- Lemmas on the lock wait of internal/dpf/lock.go, over every order of its events.
use external_dns_iij_dpf_web.Base.{
  Bool, Bool-cases, List, [], false, inl, inr, refl, subst, sym, true, ◌∷◌, ◌≡◌,
}
use external_dns_iij_dpf_web.Dpf.Lock.{
  LockWait, WaitEvent, entering, expire, expiring, new_lock_wait, wait_step, wait_steps,
}

-- The timer runs out before the edit is entered.
abbrev pub runs_out : List WaitEvent → Bool
runs_out [] = false
runs_out (entering ∷ es) = false
runs_out (expiring ∷ es) = true

expire-entered : (w : LockWait) → w.entered ≡ true → expire w ≡ w
unfolding expire
expire-entered w h = rw h refl

entered-steps :
    (w : LockWait) (es : List WaitEvent)
    → w.entered ≡ true
    → ((wait_steps w es).expired ≡ w.expired) × ((wait_steps w es).cancelled ≡ w.cancelled)
unfolding wait_steps
entered-steps w [] h = (refl, refl)
entered-steps w (entering ∷ es) h = entered-steps (wait_step w entering) es refl
entered-steps w (expiring ∷ es) h =
    subst
      (λ (v : LockWait).
        ((wait_steps v es).expired ≡ w.expired) × ((wait_steps v es).cancelled ≡ w.cancelled))
      (sym (expire-entered w h)) (entered-steps w es h)

expire-expired : (w : LockWait) → w.expired ≡ true → (expire w).expired ≡ true
unfolding expire
expire-expired w h = elim (Bool-cases w.entered) [
  | inl y ↦ cc (expire-entered w y, h)
  | inr n ↦ rw n refl
]

expire-cancelled : (w : LockWait) → w.cancelled ≡ true → (expire w).cancelled ≡ true
unfolding expire
expire-cancelled w h = elim (Bool-cases w.entered) [
  | inl y ↦ cc (expire-entered w y, h)
  | inr n ↦ rw n refl
]

expired-steps :
    (w : LockWait) (es : List WaitEvent)
    → w.expired ≡ true
    → w.cancelled ≡ true
    → ((wait_steps w es).expired ≡ true) × ((wait_steps w es).cancelled ≡ true)
unfolding wait_steps
expired-steps w [] h k = (h, k)
expired-steps w (entering ∷ es) h k = expired-steps (wait_step w entering) es h k
expired-steps w (expiring ∷ es) h k =
    expired-steps (wait_step w expiring) es (expire-expired w h) (expire-cancelled w k)

-- The wait counts as timed out, and its context is cancelled, exactly if the timer runs out before
-- the edit is entered: once an edit has begun the limit does not touch it.
pub wait_steps-runs_out :
    (es : List WaitEvent)
    → ((wait_steps new_lock_wait es).expired ≡ runs_out es)
      × ((wait_steps new_lock_wait es).cancelled ≡ runs_out es)
unfolding wait_steps
wait_steps-runs_out [] = (refl, refl)
wait_steps-runs_out (entering ∷ es) = entered-steps (wait_step new_lock_wait entering) es refl
wait_steps-runs_out (expiring ∷ es) = expired-steps (wait_step new_lock_wait expiring) es refl refl
