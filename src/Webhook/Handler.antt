-- ===== src/Webhook/Handler.antt =====
-- internal/webhook/handler.go: the four handlers. A request's body comes decoded, none where the
-- JSON decoder fails. The log of a body is in Webhook/Body.
use external_dns_iij_dpf_web.Base.{List, Option, none, some, ℕ}
use external_dns_iij_dpf_web.Base.Text.{Text}
use external_dns_iij_dpf_web.Calls.{Call}
use external_dns_iij_dpf_web.Dnsname.Name.{Dns}
use external_dns_iij_dpf_web.Dnsname.Scope.{Scope}
use external_dns_iij_dpf_web.Dpf.Apply.{apply}
use external_dns_iij_dpf_web.Errors.{Error, Result, err, err_permanent, ok, plain, sentinel, wrap2}
use external_dns_iij_dpf_web.Provider.Adjust.{adjust}
use external_dns_iij_dpf_web.Provider.Service.{filters, records}
use external_dns_iij_dpf_web.Provider.Txt.{TxtCodec}
use external_dns_iij_dpf_web.Provider.Types.{ChangeSet, Record}
use external_dns_iij_dpf_web.Webhook.Status.{status_for}
use external_dns_iij_dpf_web.Webhook.Wire.{
  Changes, Endpoint, adjust_endpoints, to_change_set, to_endpoints, to_records,
}

pub data Body : Type 0 where
  filters_body : List Text → Body
  endpoints_body : List Endpoint → Body
  -- `http.StatusText` of the code.
  status_text : Body
  error_text : Text → Body
  no_body : Body

pub record Response : Type 0 where
  pub status : ℕ
  pub body : Body

-- `WriteError`.
abbrev pub write_error : Error → Response
write_error e = record { status = status_for e; body = status_text }

-- What a decoder's error becomes.
abbrev pub undecodable : Error
undecodable = wrap2 (sentinel err_permanent) plain

unfoldable pub get_root : Dns → Scope → Response
get_root d scope = record { status = 200; body = filters_body (filters d scope) }

module _ {W : Type 0} (d : Dns) where
  abbrev pub listed : Result (List Record) × W → Response × W
  listed (r, w) = (
    elim r [
      | err e ↦ write_error e
      | ok rs ↦ record { status = 200; body = endpoints_body (to_endpoints d rs) }
    ],
    w,
  )

  -- `getRecords`, with the call of the provider.
  unfoldable pub get_records : Call W (List Record) → W → Response × W
  get_records records w = listed (records w)

  abbrev pub applied : Result (Unit {0}) × W → Response × W
  applied (r, w) =
      (elim r [ err e ↦ write_error e | ok u ↦ record { status = 204; body = no_body } ], w)

  abbrev pub posted : (ChangeSet → Call W (Unit {0})) → Result ChangeSet → W → Response × W
  posted apply (err e) w = (write_error e, w)
  posted apply (ok cs) w = applied (apply cs w)

  -- `postRecords`, with the call of the provider.
  unfoldable pub post_records : (ChangeSet → Call W (Unit {0})) → Option Changes → W → Response × W
  post_records apply none w = (write_error undecodable, w)
  post_records apply (some c) w = posted apply (to_change_set d c) w

unfoldable pub post_adjust_endpoints : Dns → TxtCodec → Option (List Endpoint) → Response
post_adjust_endpoints d t none = write_error undecodable
post_adjust_endpoints d t (some es) = elim (to_records d es) [
  | err e ↦ write_error e
  | ok rs ↦ record { status = 200; body = endpoints_body (adjust_endpoints d es (adjust t rs)) }
]
