-- ===== src/Webhook/Wire.antt =====
-- internal/webhook/wire.go: the transfer form of records and change sets.
use external_dns_iij_dpf_web.Base.{List, [], if◌then◌else◌, length, map, nat_eq, ◌∷◌}
use external_dns_iij_dpf_web.Base.Int.{ℤ}
use external_dns_iij_dpf_web.Base.Text.{Text}
use external_dns_iij_dpf_web.Dnsname.Name.{Dns, parse, unqualified}
use external_dns_iij_dpf_web.Errors.{Result, err, err_permanent, ok, sentinel, wrap2, ◌>>=◌}
use external_dns_iij_dpf_web.Provider.Types.{ChangeSet, Record, parse_record_type}

-- The fields behind `record_ttl` are passed on and not read. A nil list and an empty one are one.
pub record Endpoint : Type 0 where
  pub dns_name : Text
  pub targets : List Text
  pub record_type : Text
  pub record_ttl : ℤ
  pub set_identifier : Text
  pub labels : List (Text × Text)
  pub provider_specific : List (Text × Text)

pub record Changes : Type 0 where
  pub create : List Endpoint
  pub update_old : List Endpoint
  pub update_new : List Endpoint
  pub remove : List Endpoint

module _ (d : Dns) where
  unfoldable pub to_record : Endpoint → Result Record
  to_record e = elim (parse d e.dns_name) [
    | err c ↦ err (wrap2 (sentinel err_permanent) c)
    | ok name ↦ elim (parse_record_type e.record_type) [
      | err c ↦ err c
      | ok rtype ↦
          ok (record { name = name; rtype = rtype; ttl = e.record_ttl; values = e.targets })
    ]
  ]

  unfoldable pub to_records : List Endpoint → Result (List Record)
  to_records [] = ok []
  to_records (e ∷ es) = to_record e >>= λ r. to_records es >>= λ rs. ok (r ∷ rs)

  unfoldable pub to_change_set : Changes → Result ChangeSet
  to_change_set c = to_records c.create >>= λ create. to_records c.update_new >>= λ update_to.
      to_records c.remove >>= λ remove.
      ok (record { create = create; update_to = update_to; remove = remove })

  unfoldable pub to_endpoint : Record → Endpoint
  to_endpoint r = record {
    dns_name = unqualified d r.name;
    targets = r.values;
    record_type = r.rtype;
    record_ttl = r.ttl;
    set_identifier = [];
    labels = [];
    provider_specific = [];
  }

  unfoldable pub to_endpoints : List Record → List Endpoint
  unfolding to_endpoint
  to_endpoints rs = map to_endpoint rs

  -- The loop of `adjustEndpoints`, where the lengths agree.
  unfoldable pub adjust_pairs : List Endpoint → List Record → List Endpoint
  unfolding to_endpoint
  adjust_pairs (e ∷ es) (r ∷ rs) =
      let a = to_endpoint r in
      record e {
        dns_name = a.dns_name;
        targets = a.targets;
        record_type = a.record_type;
        record_ttl = a.record_ttl;
      }
      ∷ adjust_pairs es rs
  adjust_pairs [] rs = []
  adjust_pairs (e ∷ es) [] = []

  unfoldable pub adjust_endpoints : List Endpoint → List Record → List Endpoint
  unfolding adjust_pairs
  adjust_endpoints es rs = if nat_eq (length es) (length rs) then adjust_pairs es rs else es
