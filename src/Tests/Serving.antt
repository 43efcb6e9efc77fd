-- ===== src/Tests/Serving.antt =====
-- The theorems on reading, checking and answering, over a backend that lists fixed records.
use external_dns_iij_dpf_web.Base.{
  List, [], if◌then◌else◌, leb, nat_eq, not, refl, some, suc, ℕ, ◌&&◌, ◌↔◌, ◌∷◌, ◌≡◌,
}
use external_dns_iij_dpf_web.Base.Int.{negsuc}
use external_dns_iij_dpf_web.Base.Text.{codes}
use external_dns_iij_dpf_web.Dnsname.Scope.{Scope, is_empty_scope}
use external_dns_iij_dpf_web.Dpf.Classify.{classify, wrap_api_error}
use external_dns_iij_dpf_web.Errors.{generic_error, ok, wrap}
use external_dns_iij_dpf_web.Provider.Alone.{IsAlone, validate_cname_exclusivity_iff}
use external_dns_iij_dpf_web.Provider.Backend.{Backend}
use external_dns_iij_dpf_web.Provider.Reading.{records-shown, shown}
use external_dns_iij_dpf_web.Provider.Service.{records}
use external_dns_iij_dpf_web.Provider.Types.{ChangeSet, Record, Zone, added_records, type_a}
use external_dns_iij_dpf_web.Provider.Validate.{validate_cname_exclusivity}
use external_dns_iij_dpf_web.Provider.Zoneindex.{new_zone_index}
use external_dns_iij_dpf_web.Tests.ExampleDns.{dotted, example_dns, example_dns-DnsLaws, with_dot}
use external_dns_iij_dpf_web.Tests.Examples.{name_of, record_a}
use external_dns_iij_dpf_web.Webhook.Answers.{status_for-api}
use external_dns_iij_dpf_web.Webhook.Status.{status_for}
use external_dns_iij_dpf_web.Webhook.Wire.{Endpoint}

abbrev pub one_domain : Scope
one_domain = record { domains = name_of "b.c." ∷ [] }

abbrev pub two_zones : List Zone
two_zones =
    record { name = name_of "c."; id = codes "1" }
    ∷ record { name = name_of "b.c."; id = codes "2" }
    ∷ []

abbrev pub table : Zone → List Record
table z = record_a "a.b.c." "1" ∷ record_a "a.c." "2" ∷ []

-- The state counts the calls of `Apply`.
abbrev pub counting : Backend ℕ
counting = record {
  list_zones = λ s. (ok two_zones, s);
  list_records = λ z s. (ok (table z), s);
  apply = λ z c s. (ok tt, suc s);
}

records-shown_example : records example_dns one_domain counting 0 ≡ (
    if is_empty_scope one_domain
    then (ok [], 0)
    else (ok (shown example_dns one_domain counting table (new_zone_index two_zones) two_zones), 0))
unfolding dotted with_dot
records-shown_example =
    records-shown example_dns one_domain counting table example_dns-DnsLaws (refl, tt)
      (λ z. (refl, (refl, tt))) (λ z s. refl) two_zones 0 0 refl (refl, (refl, tt))

abbrev pub mixed : ChangeSet
mixed = record {
  create = record_a "a.b.c." "1" ∷ record_a "x." "2" ∷ [];
  update_to = [];
  remove = [];
}

abbrev sent : List Endpoint
sent =
    record {
      dns_name = codes "a.";
      targets = codes "1" ∷ [];
      record_type = codes "A";
      record_ttl = negsuc 4;
      set_identifier = codes "s";
      labels = (codes "owner", codes "o") ∷ [];
      provider_specific = [];
    }
    ∷ []

abbrev decoded : List Record
decoded =
    record { name = name_of "a."; rtype = type_a; ttl = negsuc 4; values = codes "1" ∷ [] } ∷ []

status_for-api_example :
    status_for (classify (wrap (wrap_api_error (some 409) (generic_error (codes "c") [])))) ≡ (
      if leb 400 409 && not (leb 500 409) && not (nat_eq 409 408) && not (nat_eq 409 429)
      then 400
      else 500)
status_for-api_example = status_for-api 409 (codes "c") []

validate_cname_exclusivity_iff_example :
    (validate_cname_exclusivity mixed ≡ ok tt) ↔ IsAlone (added_records mixed)
validate_cname_exclusivity_iff_example = validate_cname_exclusivity_iff mixed
