-- ===== src/Tests/Requesting.antt =====
-- The theorems on requests, over the measured provider.
use external_dns_iij_dpf_web.Base.{[], eq_list, eq_ℕ, inl, insert, none, refl, some, ℕ, ◌∷◌, ◌≡◌}
use external_dns_iij_dpf_web.Base.Int.{eq_ℤ, pos}
use external_dns_iij_dpf_web.Base.Text.{codes, text_le, trim_left, trim_space}
use external_dns_iij_dpf_web.Calls.{Call}
use external_dns_iij_dpf_web.Dnsname.Name.{count_labels, eq_name, labels, parse}
use external_dns_iij_dpf_web.Dnsname.Scope.{
  contains_name, deeper, in_scope, longest_from, longest_match,
}
use external_dns_iij_dpf_web.Dpf.Rrtype.{eq_rrtype}
use external_dns_iij_dpf_web.Dpf.Wire.{eq_merge_key}
use external_dns_iij_dpf_web.Errors.{err, plain}
use external_dns_iij_dpf_web.Mux.{match_pattern}
use external_dns_iij_dpf_web.Provider.Apply.{
  assign, assign_all, filter_to_scope, group_by_zone, insert_group, sort_groups,
}
use external_dns_iij_dpf_web.Provider.Observed.{
  apply_group, log_apply, log_change_set, log_each, new_provider, observed_changes, observed_groups,
  observed_in_scope, on_backend, on_lines, record_outcome, record_parts, with_telemetry,
}
use external_dns_iij_dpf_web.Provider.Types.{
  ChangeSet, all_records, is_supported_record_type, parse_record_type,
}
use external_dns_iij_dpf_web.Provider.Validate.{
  add_type, added_types, each, validate_cname_exclusivity, validate_format, validate_no_underscore,
  validate_rdata, validate_record,
}
use external_dns_iij_dpf_web.Provider.Zoneindex.{index_from, new_zone_index, owner}
use external_dns_iij_dpf_web.Telemetry.Metrics.{add, eq_attributes, record_changes}
use external_dns_iij_dpf_web.Tests.Asking.{at_start, example_provider, in_order}
use external_dns_iij_dpf_web.Tests.ExampleDns.{dot_split, dotted, example_dns, with_dot}
use external_dns_iij_dpf_web.Tests.Examples.{example_txt}
use external_dns_iij_dpf_web.Tests.Observed.{keeping}
use external_dns_iij_dpf_web.Tests.Serving.{counting, one_domain}
use external_dns_iij_dpf_web.Webhook.Body.{
  Reader, drop, log_request_body, read_limited, shown_body, take,
}
use external_dns_iij_dpf_web.Webhook.Handler.{post_records}
use external_dns_iij_dpf_web.Webhook.Negotiation.{ParseMedia, acceptable, negotiate}
use external_dns_iij_dpf_web.Webhook.Rereading.{
  line_for, log_request_body-keeps, log_request_body-line_for,
}
use external_dns_iij_dpf_web.Webhook.Routes.{
  Decoder, Request, Service, new_handler, provider_service, serve_request, serve_route,
}
use external_dns_iij_dpf_web.Webhook.Served.{new_handler-serve_request, plain_service}
use external_dns_iij_dpf_web.Webhook.Succeeding.{Done, new_handler-Done}
use external_dns_iij_dpf_web.Webhook.Wire.{Endpoint, to_change_set, to_record, to_records}
use external_dns_iij_dpf_web.Webhook.Writing.{serve_request-other}

abbrev endpoint : Endpoint
endpoint = record {
  dns_name = codes "a.b.c.";
  targets = codes "1" ∷ [];
  record_type = codes "A";
  record_ttl = pos 60;
  set_identifier = [];
  labels = [];
  provider_specific = [];
}

-- A decoder that reads no endpoints, and one change set whatever the body.
abbrev fixed_json : Decoder
fixed_json = record {
  changes =
      λ r. some (record { create = endpoint ∷ []; update_old = []; update_new = []; remove = [] });
  endpoints = λ r. none;
}

abbrev no_media : ParseMedia
no_media s = none

abbrev short_body : Reader
short_body = record { bytes = 123 ∷ 125 ∷ []; ending = none }

abbrev changing : Request
changing = record { method = codes "POST"; path = codes "/records"; accept = []; body = short_body }

abbrev listing_all : Request
listing_all = record {
  method = codes "GET";
  path = codes "/records";
  accept = [];
  body = short_body;
}

new_handler-serve_request_example :
    ((new_handler example_dns example_txt example_provider in_order fixed_json no_media changing
        at_start).0
      ≡ (serve_request example_dns example_txt fixed_json one_domain
          (plain_service example_dns example_txt one_domain counting)
          no_media
          changing
          0).0)
    × (((new_handler example_dns example_txt example_provider in_order fixed_json no_media changing
            at_start).1
          ).behind
        ≡ (serve_request example_dns example_txt fixed_json one_domain
            (plain_service example_dns example_txt one_domain counting)
            no_media
            changing
            0).1)
unfolding new_provider with_telemetry
new_handler-serve_request_example =
    new_handler-serve_request example_dns example_txt example_provider in_order fixed_json no_media
      changing at_start (inl refl)

abbrev service : Service ℕ
service = plain_service example_dns example_txt one_domain counting

-- An ApplyChanges that always fails.
abbrev failing : ChangeSet → Call ℕ (Unit {0})
failing cs = λ s. (err plain, s)

serve_request-other_example :
    serve_request example_dns example_txt fixed_json one_domain
      (record service { apply_changes = failing })
      no_media
      listing_all
      0
    ≡ serve_request example_dns example_txt fixed_json one_domain service no_media listing_all 0
serve_request-other_example =
    serve_request-other example_dns example_txt fixed_json one_domain service failing no_media
      listing_all 0 refl

log_request_body-keeps_example :
    (log_request_body keeping (codes "/records") short_body []).0 ≡ short_body
log_request_body-keeps_example =
    log_request_body-keeps keeping (codes "/records") short_body [] (inl refl)

log_request_body-line_for_example :
    (log_request_body keeping (codes "/records") short_body []).1
    ≡ keeping.write (line_for (codes "/records") short_body.bytes) []
log_request_body-line_for_example =
    log_request_body-line_for keeping (codes "/records") short_body [] refl (inl refl)

status-changing :
    (new_handler example_dns example_txt example_provider in_order fixed_json no_media changing
      at_start).0.1.status
    ≡ 204
unfolding new_handler serve_request serve_route provider_service negotiate acceptable match_pattern
    post_records log_request_body read_limited take drop shown_body to_change_set to_records
    to_record parse parse_record_type dotted with_dot trim_space trim_left observed_changes on_lines
    log_change_set log_each observed_in_scope on_backend observed_groups apply_group log_apply
    record_outcome record_parts with_telemetry new_provider filter_to_scope in_scope longest_match
    longest_from deeper contains_name count_labels dot_split validate_format each validate_record
    is_supported_record_type all_records validate_rdata validate_no_underscore labels
    validate_cname_exclusivity added_types add_type insert group_by_zone assign_all assign owner
    new_zone_index index_from sort_groups insert_group text_le record_changes add
status-changing = refl

new_handler-Done_example :
    Done example_dns example_txt example_provider in_order fixed_json changing 0
      ((new_handler example_dns example_txt example_provider in_order fixed_json no_media changing
          at_start).1
        ).behind
new_handler-Done_example =
    new_handler-Done example_dns example_txt example_provider in_order fixed_json no_media changing
      at_start (inl refl) status-changing
