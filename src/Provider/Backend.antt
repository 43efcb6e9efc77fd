-- ===== src/Provider/Backend.antt =====
-- internal/provider/ports.go: what the provider asks of the DPF layer, as calls that act on a state
-- and may fail.
use external_dns_iij_dpf_web.Base.{List}
use external_dns_iij_dpf_web.Calls.{Call}
use external_dns_iij_dpf_web.Provider.Types.{ChangeSet, Record, Zone}

pub record Backend (S : Type 0) : Type 0 where
  pub list_zones : Call S (List Zone)
  pub list_records : Zone → Call S (List Record)
  pub apply : Zone → ChangeSet → Call S (Unit {0})
