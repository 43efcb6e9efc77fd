-- ===== src/Provider/Fake.antt =====
-- internal/provider/providertest/fake.go: the backend that keeps zones and records, fails when it is
-- told to, and records what it is asked. `mu` makes each operation one step.
use external_dns_iij_dpf_web.Base.{
  List, Option, [], eq_list, eq_ℕ, insert, lookup, none, some, ℕ, ◌++◌, ◌+◌, ◌∷◌,
}
use external_dns_iij_dpf_web.Base.Int.{eq_ℤ}
use external_dns_iij_dpf_web.Base.Text.{Text}
use external_dns_iij_dpf_web.Calls.{Call}
use external_dns_iij_dpf_web.Dnsname.Name.{eq_name}
use external_dns_iij_dpf_web.Errors.{Error, Result, err, ok}
use external_dns_iij_dpf_web.Provider.Backend.{Backend}
use external_dns_iij_dpf_web.Provider.Types.{ChangeSet, Record, Zone}
use external_dns_iij_dpf_web.Telemetry.Metrics.{eq_attributes}

pub record AppliedChange : Type 0 where
  pub zone : Zone
  pub changes : ChangeSet

-- The three errors are none for nil; `records` is by the text of a zone's name.
pub record Fake : Type 0 where
  pub zones : List Zone
  pub records : List (Text × List Record)
  pub list_zones_err : Option Error
  pub list_records_err : Option Error
  pub apply_err : Option Error
  pub applied : List AppliedChange
  pub list_zones_calls : ℕ
  pub list_records_calls : ℕ
  pub apply_calls : ℕ

abbrev pub new_fake : Fake
new_fake = record {
  zones = [];
  records = [];
  list_zones_err = none;
  list_records_err = none;
  apply_err = none;
  applied = [];
  list_zones_calls = 0;
  list_records_calls = 0;
  apply_calls = 0;
}

-- `b.Records[name]`, nil for a key that is not there.
abbrev pub records_at : Text → List (Text × List Record) → List Record
records_at name m = elim (lookup name m) [ none ↦ [] | some rs ↦ rs ]

unfoldable pub with_zone : Zone → List Record → Fake → Fake
with_zone z rs b = record b {
  zones = b.zones ++ z ∷ [];
  records = insert z.name.canonical (records_at z.name.canonical b.records ++ rs) b.records;
}

-- A call that has been counted: the error that is set, or the answer.
abbrev pub answer_or {ℓ} : {A : Type ℓ} → Option Error → A → Result A
answer_or none a = ok a
answer_or (some e) a = err e

unfoldable pub fake_list_zones : Call Fake (List Zone)
fake_list_zones b =
    (answer_or b.list_zones_err b.zones, record b { list_zones_calls = b.list_zones_calls + 1 })

unfoldable pub fake_list_records : Zone → Call Fake (List Record)
fake_list_records z b = (
  answer_or b.list_records_err (records_at z.name.canonical b.records),
  record b { list_records_calls = b.list_records_calls + 1 },
)

unfoldable pub fake_apply : Zone → ChangeSet → Call Fake (Unit {0})
fake_apply z cs b =
    let counted = record b { apply_calls = b.apply_calls + 1 } in
    elim b.apply_err [
      | some e ↦ (err e, counted)
      | none ↦
          (ok tt, record counted { applied = b.applied ++ record { zone = z; changes = cs } ∷ [] })
    ]

unfoldable pub fake_backend : Backend Fake
unfolding fake_list_zones fake_list_records fake_apply
fake_backend = record {
  list_zones = fake_list_zones;
  list_records = fake_list_records;
  apply = fake_apply;
}

-- `Counts`.
unfoldable pub call_counts : Fake → ℕ × ℕ × ℕ
call_counts b = (b.list_zones_calls, b.list_records_calls, b.apply_calls)
