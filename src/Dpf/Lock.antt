-- ===== src/Dpf/Lock.antt =====
-- internal/dpf/lock.go: the limit on the wait for the zone lock. `mu` makes each operation one
-- step; the timer's `expire` and the edit's `enter` come in either order.
use external_dns_iij_dpf_web.Base.{
  Bool, List, Option, [], false, if◌then◌else◌, none, some, true, ◌∷◌,
}
use external_dns_iij_dpf_web.Errors.{Error, err_temporary, sentinel, still_lock, wrap2}

pub record LockWait : Type 0 where
  pub entered : Bool
  pub expired : Bool
  -- The context that the wait runs under has been cancelled.
  pub cancelled : Bool

abbrev pub new_lock_wait : LockWait
new_lock_wait = record { entered = false; expired = false; cancelled = false }

unfoldable pub enter : LockWait → LockWait
enter w = record w { entered = true }

unfoldable pub expire : LockWait → LockWait
expire w = if w.entered then w else record w { expired = true; cancelled = true }

unfoldable pub stop : LockWait → LockWait
stop w = record w { cancelled = true }

unfoldable pub wait_err : LockWait → Option Error
wait_err w = if w.expired then some (wrap2 (sentinel err_temporary) (sentinel still_lock)) else none

-- What happens to the wait while an apply runs.
pub data WaitEvent : Type 0 where
  entering expiring : WaitEvent

unfoldable pub wait_step : LockWait → WaitEvent → LockWait
unfolding enter expire
wait_step w entering = enter w
wait_step w expiring = expire w

unfoldable pub wait_steps : LockWait → List WaitEvent → LockWait
unfolding wait_step
wait_steps w [] = w
wait_steps w (e ∷ es) = wait_steps (wait_step w e) es
