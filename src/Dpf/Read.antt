-- ===== src/Dpf/Read.antt =====
-- internal/dpf/records.go, zone.go and history.go: what DPF lists, in the types of the domain. A
-- record as listed and a record as submitted have the same readers, so `WireRecord` stands for
-- both.
use external_dns_iij_dpf_web.Base.{Option, [], map, none, some, ℕ}
use external_dns_iij_dpf_web.Base.Int.{pos, ℤ}
use external_dns_iij_dpf_web.Base.Text.{Text}
use external_dns_iij_dpf_web.Dnsname.Name.{Dns, parse}
use external_dns_iij_dpf_web.Dpf.Classify.{wrap_api_error}
use external_dns_iij_dpf_web.Dpf.Rrtype.{from_dpf}
use external_dns_iij_dpf_web.Dpf.Wire.{WireRecord}
use external_dns_iij_dpf_web.Errors.{Error, Result, err, ok}
use external_dns_iij_dpf_web.Provider.Types.{Record, Zone}

-- The end of a listing: what was listed, or an error with the response's status, none where there
-- was no response.
pub data Reply (A : Type 0) : Type 0 where
  answered : A → Reply A
  failed : Option ℕ → Error → Reply A

abbrev pub value_of : Option Text → Text
value_of none = []
value_of (some v) = v

abbrev pub ttl_of : Option ℤ → ℤ
ttl_of none = pos 0
ttl_of (some n) = n

-- A zone as listed: its name and its id.
pub record ListedZone : Type 0 where
  pub name : Text
  pub id : Text

module _ (d : Dns) where
  unfoldable pub to_provider_record : WireRecord → Option Record
  to_provider_record r = elim (from_dpf r.rrtype) [
    | none ↦ none
    | some rtype ↦ elim (parse d r.name) [
      | err e ↦ none
      | ok name ↦
          some (record {
            name = name;
            rtype = rtype;
            ttl = ttl_of r.ttl;
            values = map value_of r.rdata;
          })
    ]
  ]

  abbrev pub to_zone : ListedZone → Option Zone
  to_zone z = elim (parse d z.name) [
    | err e ↦ none
    | ok name ↦ some (record { name = name; id = z.id })
  ]

-- A history as listed, and `ZoneHistory`: a time is a count of clock ticks.
pub record ListedHistory : Type 0 where
  pub id : Option ℤ
  pub committed_at : Option ℕ
  pub description : Option Text
  pub operator : Option Text

pub record ZoneHistory : Type 0 where
  pub id : ℤ
  pub committed_at : ℕ
  pub description : Text
  pub operator : Text

abbrev pub to_history : ListedHistory → ZoneHistory
to_history h = record {
  id = elim h.id [ none ↦ pos 0 | some n ↦ n ];
  committed_at = elim h.committed_at [ none ↦ 0 | some n ↦ n ];
  description = value_of h.description;
  operator = value_of h.operator;
}

-- The closure of a listing: what is read of the answer, or the API's error.
abbrev pub read_reply : {A B : Type 0} → (A → B) → Reply A → Result B
read_reply f (answered a) = ok (f a)
read_reply f (failed status e) = err (wrap_api_error status e)
