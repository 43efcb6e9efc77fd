-- ===== src/Dpf/Applying.antt =====
-- Lemmas on what `Client.Apply` of internal/dpf/apply.go answers when it fails.
use external_dns_iij_dpf_web.Base.{Bool-cases, ap, false, inl, inr, refl, true, ◌∙◌, ◌≡◌}
use external_dns_iij_dpf_web.Dnsname.Name.{Dns}
use external_dns_iij_dpf_web.Dpf.Apply.{ZoneApplier, apply, apply_error, edit}
use external_dns_iij_dpf_web.Dpf.Classified.{classify-is_classified, is_classified}
use external_dns_iij_dpf_web.Dpf.Classify.{classify}
use external_dns_iij_dpf_web.Dpf.Lock.{LockWait, new_lock_wait, wait_err, wait_steps}
use external_dns_iij_dpf_web.Dpf.Waiting.{runs_out, wait_steps-runs_out}
use external_dns_iij_dpf_web.Errors.{
  Error, IsTemporary, OnError, Result, err, err_permanent, err_temporary, is, ok, sentinel,
  still_lock, wrap, wrap2,
}
use external_dns_iij_dpf_web.Provider.Txt.{TxtCodec}
use external_dns_iij_dpf_web.Provider.Types.{ChangeSet, Zone, is_empty_changes}

abbrev lock_timeout : Error
lock_timeout = wrap2 (sentinel err_temporary) (sentinel still_lock)

apply_error-expired :
    (w : LockWait) (e : Error) → w.expired ≡ true → apply_error w e ≡ classify (wrap lock_timeout)
unfolding wait_err
apply_error-expired w e h = rw h refl

-- A failed apply of changes whose lock wait ran out before the edit was entered is a temporary
-- failure that names the lock, whatever the error that the applier gave, and is not a permanent
-- one.
pub apply-runs_out :
    {S : Type 0} (d : Dns) (t : TxtCodec) (a : ZoneApplier S) (zone : Zone) (cs : ChangeSet) (s : S)
    (e : Error)
    → is_empty_changes cs ≡ false
    → (a.run zone.id (edit d t cs) s).result ≡ err e
    → runs_out (a.run zone.id (edit d t cs) s).events ≡ true
    → (f : Error) × ((apply d t a zone cs s).0 ≡ err f)
      × (is still_lock f ≡ true)
      × IsTemporary f
      × (is err_permanent f ≡ false)
unfolding apply is classify
apply-runs_out d t a zone cs s e n broken late =
    let w : LockWait = wait_steps new_lock_wait (a.run zone.id (edit d t cs) s).events in
    let late' : w.expired ≡ true =
      (wait_steps-runs_out (a.run zone.id (edit d t cs) s).events).0 ∙ late in
    let waited : apply_error w e ≡ classify (wrap lock_timeout) = apply_error-expired w e late' in
    (
      classify (wrap lock_timeout),
      rw (n, broken) (ap (λ (f : Error). err f) waited),
      refl,
      refl,
      refl,
    )

pub apply_error-is_classified : (w : LockWait) (e : Error) → is_classified (apply_error w e) ≡ true
unfolding wait_err
apply_error-is_classified w e = elim (Bool-cases w.expired) [
  | inl y ↦ rw y (classify-is_classified (wrap lock_timeout))
  | inr n ↦ rw n (classify-is_classified (wrap e))
]

-- An apply gives no error but one that is temporary or permanent, whatever the applier answers, and
-- an apply of no changes succeeds and leaves DPF alone.
apply-is_classified :
    {S : Type 0} (d : Dns) (t : TxtCodec) (a : ZoneApplier S) (zone : Zone) (cs : ChangeSet) (s : S)
    → OnError (λ e. is_classified e ≡ true) (apply d t a zone cs s).0
      × (is_empty_changes cs ≡ true → apply d t a zone cs s ≡ (ok tt, s))
unfolding apply
apply-is_classified d t a zone cs s = elim (Bool-cases (is_empty_changes cs)) [
  | inl y ↦ rw y (tt, λ h. refl)
  | inr n ↦ rw n (go (a.run zone.id (edit d t cs) s).result, λ h. cc h)
]
  where
    w : LockWait
    w = wait_steps new_lock_wait (a.run zone.id (edit d t cs) s).events

    IsClassified : Result (Unit {0}) → Type 0
    IsClassified (ok u) = Unit
    IsClassified (err e) = is_classified e ≡ true

    go :
        (r : Result (Unit {0}))
        → IsClassified (elim r [ ok u ↦ ok tt | err e ↦ err (apply_error w e) ])
    go (ok u) = tt
    go (err e) = apply_error-is_classified w e
