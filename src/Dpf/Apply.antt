-- ===== src/Dpf/Apply.antt =====
-- internal/dpf/apply.go: `Client.Apply`, and the edit that it gives to the zone applier.
use external_dns_iij_dpf_web.Base.{List, eq_list, eq_ℕ, if◌then◌else◌, none, some}
use external_dns_iij_dpf_web.Base.Int.{eq_ℤ}
use external_dns_iij_dpf_web.Base.Text.{Text}
use external_dns_iij_dpf_web.Dnsname.Name.{Dns, eq_name}
use external_dns_iij_dpf_web.Dpf.Classify.{classify}
use external_dns_iij_dpf_web.Dpf.Guard.{guard, unchanged}
use external_dns_iij_dpf_web.Dpf.Label.{apply_managed_by}
use external_dns_iij_dpf_web.Dpf.Lock.{LockWait, WaitEvent, new_lock_wait, wait_err, wait_steps}
use external_dns_iij_dpf_web.Dpf.Merge.{merge}
use external_dns_iij_dpf_web.Dpf.Rrtype.{eq_rrtype}
use external_dns_iij_dpf_web.Dpf.Wire.{WireRecord, eq_merge_key}
use external_dns_iij_dpf_web.Errors.{Error, Result, err, ok, sentinel, skip_apply, wrap, ◌>>◌}
use external_dns_iij_dpf_web.Provider.Txt.{TxtCodec}
use external_dns_iij_dpf_web.Provider.Types.{ChangeSet, Zone, is_empty_changes}

-- What a call of `utils.ZoneApplier.Apply` comes to: its error, what happened to the lock wait
-- meanwhile, and the state of DPF behind it.
pub record Outcome (S : Type 0) : Type 0 where
  pub result : Result (Unit {0})
  pub events : List WaitEvent
  pub state : S

abbrev pub Edit : Type 0
Edit = List WireRecord → Result (List WireRecord)

-- `utils.ZoneApplier` for a zone's id: it takes the lock, reads the records that are published,
-- runs the edit, submits what the edit returns, and waits.
pub record ZoneApplier (S : Type 0) : Type 0 where
  pub run : Text → Edit → S → Outcome S

-- The end of `edit`, on the set with its marks: the guard, then `ErrSkipApply` where the set is
-- what is published.
unfoldable pub submit_or_skip :
    Dns → List WireRecord → List WireRecord → ChangeSet → Result (List WireRecord)
submit_or_skip d current set cs =
    guard d current set cs >> (if unchanged current set then err (sentinel skip_apply) else ok set)

-- What `edit` makes of the result of `merge`.
abbrev pub finish_edit :
    Dns → List WireRecord → ChangeSet → Result (List WireRecord) → Result (List WireRecord)
finish_edit d current cs (err e) = err (classify e)
finish_edit d current cs (ok set) = submit_or_skip d current (apply_managed_by set cs) cs

-- The closure `edit`.
unfoldable pub edit : Dns → TxtCodec → ChangeSet → Edit
edit d t cs current = finish_edit d current cs (merge d t current cs)

-- The error of a failed apply: that of the lock wait in its place, where there is one.
abbrev pub apply_error : LockWait → Error → Error
apply_error w e = elim (wait_err w) [
  | none ↦ classify (wrap e)
  | some waited ↦ classify (wrap waited)
]

module _ {S : Type 0} (d : Dns) (t : TxtCodec) (a : ZoneApplier S) where
  unfoldable pub apply : Zone → ChangeSet → S → Result (Unit {0}) × S
  apply zone cs s =
      let o = a.run zone.id (edit d t cs) s in
      let failed : Error → Result (Unit {0}) =
        λ e. err (apply_error (wait_steps new_lock_wait o.events) e) in
      if is_empty_changes cs
      then (ok tt, s)
      else (elim o.result [ ok u ↦ ok tt | err e ↦ failed e ], o.state)
