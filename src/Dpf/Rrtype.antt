-- ===== src/Dpf/Rrtype.antt =====
-- internal/dpf/rrtype.go: the record types of this service and those of DPF.
use external_dns_iij_dpf_web.Base.{
  Bool, Eq, List, Option, [], ap, eq_list, eq_ℕ, false, has_key-eq-any, if◌then◌else◌, list_eq,
  list_eq_iff, lookup, lookup-AllEntries, map, nat_eq, none, refl, some, sym, true, ◌↔◌, ◌∙◌, ◌∷◌,
  ◌≡◌,
}
use external_dns_iij_dpf_web.Base.Int.{eq_ℤ}
use external_dns_iij_dpf_web.Base.Text.{Text}
use external_dns_iij_dpf_web.Dnsname.Name.{eq_name}
use external_dns_iij_dpf_web.Errors.{Result, err, is_ok, ok}
use external_dns_iij_dpf_web.Provider.Types.{
  RecordType, is_supported_record_type, type_a, type_aaaa, type_cname, type_mx, type_naptr,
  type_ptr, type_srv, type_txt, unsupported,
}

-- `dpfapi.RecordsRrtype`: the eight constants that the program names, and any other value.
pub data Rrtype : Type 0 where
  rr_a rr_aaaa rr_cname rr_txt rr_srv rr_ptr rr_mx rr_naptr : Rrtype
  rr_other : Text → Rrtype

abbrev pub rr_code : Rrtype → Text
rr_code rr_a = 0 ∷ []
rr_code rr_aaaa = 1 ∷ []
rr_code rr_cname = 2 ∷ []
rr_code rr_txt = 3 ∷ []
rr_code rr_srv = 4 ∷ []
rr_code rr_ptr = 5 ∷ []
rr_code rr_mx = 6 ∷ []
rr_code rr_naptr = 7 ∷ []
rr_code (rr_other s) = 8 ∷ s

abbrev rr_decode : Text → Rrtype
rr_decode [] = rr_a
rr_decode (c ∷ s) =
    if nat_eq c 0
    then rr_a
    else if nat_eq c 1
    then rr_aaaa
    else if nat_eq c 2
    then rr_cname
    else if nat_eq c 3
    then rr_txt
    else if nat_eq c 4
    then rr_srv
    else if nat_eq c 5
    then rr_ptr
    else if nat_eq c 6
    then rr_mx
    else if nat_eq c 7
    then rr_naptr
    else rr_other s

rr_decode-code : (a : Rrtype) → rr_decode (rr_code a) ≡ a
rr_decode-code rr_a = refl
rr_decode-code (rr_other s) = refl
rr_decode-code _ = refl

abbrev pub rrtype_eq : Rrtype → Rrtype → Bool
rrtype_eq a b = list_eq (rr_code a) (rr_code b)

pub rrtype_eq_iff : (a b : Rrtype) → (rrtype_eq a b ≡ true) ↔ (a ≡ b)
rrtype_eq_iff a b = (
  λ h.
      sym (rr_decode-code a)
      ∙ ap (λ (t : Text). rr_decode t) ((list_eq_iff (rr_code a) (rr_code b)).0 h)
      ∙ rr_decode-code b,
  λ e. (list_eq_iff (rr_code a) (rr_code b)).1 (ap (λ (t : Rrtype). rr_code t) e),
)

instance abbrev pub eq_rrtype : Eq Rrtype
eq_rrtype = record { same = rrtype_eq; same_iff = rrtype_eq_iff }

abbrev pub type_to_dpf : List (RecordType × Rrtype)
type_to_dpf =
    (type_a, rr_a)
    ∷ (type_aaaa, rr_aaaa)
    ∷ (type_cname, rr_cname)
    ∷ (type_txt, rr_txt)
    ∷ (type_srv, rr_srv)
    ∷ (type_ptr, rr_ptr)
    ∷ (type_mx, rr_mx)
    ∷ (type_naptr, rr_naptr)
    ∷ []

abbrev swapped : RecordType × Rrtype → Rrtype × RecordType
swapped (k, v) = (v, k)

-- The inverse, built from `type_to_dpf`.
abbrev pub type_from_dpf : List (Rrtype × RecordType)
type_from_dpf = map swapped type_to_dpf

abbrev pub sent_as : Option Rrtype → Result Rrtype
sent_as none = err unsupported
sent_as (some r) = ok r

unfoldable pub to_dpf : RecordType → Result Rrtype
to_dpf t = sent_as (lookup t type_to_dpf)

unfoldable pub from_dpf : Rrtype → Option RecordType
from_dpf r = lookup r type_from_dpf

sent_as-eq-ok : (o : Option Rrtype) (r : Rrtype) → sent_as o ≡ ok r → o ≡ some r
sent_as-eq-ok none r h = cc
sent_as-eq-ok (some x) r h = cc

is_ok-sent_as : (o : Option Rrtype) → is_ok (sent_as o) ≡ (elim o [ none ↦ false | some v ↦ true ])
is_ok-sent_as none = refl
is_ok-sent_as (some x) = refl

-- A record type that can be sent to DPF reads back as itself.
pub from_dpf-to_dpf : (t : RecordType) (r : Rrtype) → to_dpf t ≡ ok r → from_dpf r ≡ some t
unfolding to_dpf from_dpf
from_dpf-to_dpf t r h =
    lookup-AllEntries (λ k v. from_dpf v ≡ some k) type_to_dpf
      (refl, (refl, (refl, (refl, (refl, (refl, (refl, (refl, tt))))))))
      (sent_as-eq-ok (lookup t type_to_dpf) r h)

-- A type of DPF that is read as a supported type is what that type is sent as.
pub to_dpf-from_dpf : (r : Rrtype) (t : RecordType) → from_dpf r ≡ some t → to_dpf t ≡ ok r
unfolding to_dpf from_dpf
to_dpf-from_dpf r t h =
    lookup-AllEntries (λ k v. to_dpf v ≡ ok k) type_from_dpf
      (refl, (refl, (refl, (refl, (refl, (refl, (refl, (refl, tt)))))))) h

-- A record type can be sent to DPF exactly if it is a supported one.
pub to_dpf_supported : (t : RecordType) → is_ok (to_dpf t) ≡ is_supported_record_type t
unfolding to_dpf is_supported_record_type
to_dpf_supported t = is_ok-sent_as (lookup t type_to_dpf) ∙ has_key-eq-any t type_to_dpf
