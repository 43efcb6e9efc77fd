-- ===== src/Tests/Storing.antt =====
-- A DPF that keeps its zones by their ids, and keeps the laws.
use external_dns_iij_dpf_web.Base.{
  Bool-cases, List, [], eq_list, eq_ℕ, false, if◌then◌else◌, inl, inr, list_eq, list_eq_iff, none,
  refl, sym, true, ◌∷◌, ◌≡◌, ◌≢◌,
}
use external_dns_iij_dpf_web.Base.Int.{eq_ℤ}
use external_dns_iij_dpf_web.Base.Text.{Text, codes}
use external_dns_iij_dpf_web.Composed.Zones.{DpfLaws}
use external_dns_iij_dpf_web.Dnsname.Name.{eq_name}
use external_dns_iij_dpf_web.Dpf.Apply.{Edit, Outcome, edit}
use external_dns_iij_dpf_web.Dpf.Client.{Client, DpfGo}
use external_dns_iij_dpf_web.Dpf.Lock.{entering}
use external_dns_iij_dpf_web.Dpf.Read.{answered}
use external_dns_iij_dpf_web.Dpf.Rrtype.{eq_rrtype}
use external_dns_iij_dpf_web.Dpf.Wire.{WireRecord, eq_merge_key}
use external_dns_iij_dpf_web.Errors.{Error, Result, err, is, ok, skip_apply}
use external_dns_iij_dpf_web.Telemetry.Metrics.{eq_attributes}
use external_dns_iij_dpf_web.Tests.ExampleDns.{example_dns}
use external_dns_iij_dpf_web.Tests.Examples.{example_txt}

abbrev pub Zones : Type 0
Zones = Text → List WireRecord

abbrev pub zone_kept : Text → Zones → List WireRecord
zone_kept id s = s id

abbrev pub with_zone : Text → List WireRecord → Zones → Zones
with_zone id set s = λ other. if list_eq id other then set else s other

abbrev stored : Text → Zones → Result (List WireRecord) → Outcome Zones
stored id s (ok set) = record { result = ok tt; events = entering ∷ []; state = with_zone id set s }
stored id s (err e) = record {
  result = if is skip_apply e then ok tt else err e;
  events = entering ∷ [];
  state = s;
}

abbrev pub storing : DpfGo Zones
storing = record {
  operation = λ m s. m s;
  zones = λ s. (
    answered (
        record { name = codes "c."; id = codes "1" }
        ∷ record { name = codes "b.c."; id = codes "2" }
        ∷ []),
    s,
  );
  records = λ id keywords s. (answered (s id), s);
  histories = λ id order limit s. (answered [], s);
  applier = record { run = λ id edit s. stored id s (edit (s id)) };
  now = λ s. 0;
}

list_eq_self : (id : Text) → list_eq id id ≡ true
list_eq_self id = (list_eq_iff id id).1 refl

stored_elsewhere :
    (id other : Text) (s : Zones) (m : Result (List WireRecord))
    → other ≢ id
    → (stored id s m).state other ≡ s other
stored_elsewhere id other s (err e) n = refl
stored_elsewhere id other s (ok set) n = elim (Bool-cases (list_eq id other)) [
  | inl y ↦ absurd (n (sym ((list_eq_iff id other).0 y)))
  | inr k ↦ rw k refl
]

pub storing-DpfLaws : DpfLaws example_dns example_txt storing zone_kept
storing-DpfLaws = record {
  applies = record {
    submits = λ id cs s set h r. rw (h, list_eq_self id) refl;
    skips = λ id cs s f h k. rw h refl;
    refuses = λ id cs s f h k r. refused id (edit example_dns example_txt cs) s f h k r;
  };
  leaves = λ id other e s n. stored_elsewhere id other s (e (s id)) n;
  lists = λ id s. refl;
  runs = λ m id same s. same s;
}
  where
    refused :
        (id : Text) (e : Edit) (s : Zones) (f : Error)
        → e (s id) ≡ err f
        → is skip_apply f ≡ false
        → (stored id s (e (s id))).result ≢ ok tt
    refused id e s f h k r = cc (rw (h, k) at r)

abbrev pub storing_client : Client Zones (Unit {0})
storing_client = record { api = storing; metrics = none }
