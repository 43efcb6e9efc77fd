-- ===== src/Telemetry/Metrics.antt =====
-- internal/telemetry/metrics.go: the instruments and what is recorded with them. A counter is what
-- was added under each set of labels, and a histogram what was recorded; the numbers added are
-- lengths of lists, so the conversion to int64 keeps them. A duration is a count of clock ticks.
use external_dns_iij_dpf_web.Base.{
  Bool, Eq, List, Option, [], arith, eq_list, eq_ℕ, false, insert, list_eq, list_eq_iff, lookup,
  none, not, some, true, ℕ, ◌&&◌, ◌++◌, ◌+◌, ◌↔◌, ◌∷◌, ◌≡◌,
}
use external_dns_iij_dpf_web.Base.Int.{eq_ℤ}
use external_dns_iij_dpf_web.Base.Text.{Text, codes}
use external_dns_iij_dpf_web.Calls.{Call, and_then, pure, wrapping}
use external_dns_iij_dpf_web.Dnsname.Name.{eq_name}

abbrev pub op_create : Text
op_create = codes "create"

abbrev pub op_update : Text
op_update = codes "update"

abbrev pub op_delete : Text
op_delete = codes "delete"

-- The labels of a measurement.
pub record Attributes : Type 0 where
  pub operation : Text
  pub success : Bool

abbrev pub same_bool : Bool → Bool → Bool
same_bool true b = b
same_bool false b = not b

abbrev pub attributes_eq : Attributes → Attributes → Bool
attributes_eq a b = list_eq a.operation b.operation && same_bool a.success b.success

same_bool_iff : (a b : Bool) → (same_bool a b ≡ true) ↔ (a ≡ b)
same_bool_iff true b = ground arith
same_bool_iff false b = ground arith

pub attributes_eq_iff : (a b : Attributes) → (attributes_eq a b ≡ true) ↔ (a ≡ b)
attributes_eq_iff a b =
    ground (arith, list_eq_iff a.operation b.operation, same_bool_iff a.success b.success)

instance abbrev pub eq_attributes : Eq Attributes
eq_attributes = record { same = attributes_eq; same_iff = attributes_eq_iff }

pub record Metrics : Type 0 where
  pub changes : List (Attributes × ℕ)
  pub dpf_calls : List (Attributes × ℕ)
  pub dpf_call_secs : List (Attributes × List ℕ)
  pub apply_failure : ℕ

abbrev pub counted : Attributes → List (Attributes × ℕ) → ℕ
counted a m = elim (lookup a m) [ none ↦ 0 | some n ↦ n ]

-- `Int64Counter.Add`.
unfoldable pub add : ℕ → Attributes → List (Attributes × ℕ) → List (Attributes × ℕ)
add n a m = insert a (counted a m + n) m

-- `Float64Histogram.Record`.
unfoldable pub observe_value :
    ℕ → Attributes → List (Attributes × List ℕ) → List (Attributes × List ℕ)
observe_value n a m = insert a ((elim (lookup a m) [ none ↦ [] | some ns ↦ ns ]) ++ n ∷ []) m

abbrev pub no_metrics : Metrics
no_metrics = record { changes = []; dpf_calls = []; dpf_call_secs = []; apply_failure = 0 }

module _ {S : Type 0} (instrument : Text → Call S (Unit {0})) where
  -- `newMetrics`: `instrument` is how the meter makes an instrument of a name.
  unfoldable pub new_metrics : Call S Metrics
  new_metrics = and_then (wrapping (instrument (codes "dns_record_changes_total"))) λ u.
      and_then (wrapping (instrument (codes "dpf_api_calls_total"))) λ u.
        and_then (wrapping (instrument (codes "dpf_api_call_duration_seconds"))) λ u.
          and_then (wrapping (instrument (codes "dns_apply_failures_total"))) λ u. pure no_metrics

-- The three methods, none for a nil receiver.
unfoldable pub record_changes : Text → Bool → ℕ → Option Metrics → Option Metrics
record_changes op success count none = none
record_changes op success count (some m) =
    some (record m { changes = add count (record { operation = op; success = success }) m.changes })

unfoldable pub record_dpf_call : Text → Bool → ℕ → Option Metrics → Option Metrics
record_dpf_call op success seconds none = none
record_dpf_call op success seconds (some m) =
    let labels : Attributes = record { operation = op; success = success } in
    some (record m {
      dpf_calls = add 1 labels m.dpf_calls;
      dpf_call_secs = observe_value seconds labels m.dpf_call_secs;
    })

unfoldable pub record_apply_failure : Option Metrics → Option Metrics
record_apply_failure none = none
record_apply_failure (some m) = some (record m { apply_failure = m.apply_failure + 1 })
