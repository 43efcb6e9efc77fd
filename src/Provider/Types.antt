-- ===== src/Provider/Types.antt =====
-- internal/provider/types.go: record types, zones, records and change sets.
use external_dns_iij_dpf_web.Base.{
  Bool, List, [], contains, eq_list, eq_ℕ, if◌then◌else◌, is_empty, ◌&&◌, ◌++◌, ◌∷◌,
}
use external_dns_iij_dpf_web.Base.Int.{eq_ℤ, ℤ}
use external_dns_iij_dpf_web.Base.Text.{Text, codes}
use external_dns_iij_dpf_web.Dnsname.Name.{Name, eq_name}
use external_dns_iij_dpf_web.Errors.{
  Error, Result, err, err_permanent, err_unsupported_type, ok, sentinel, wrap2,
}

-- A string type: the eight constants are its supported values.
abbrev pub RecordType : Type 0
RecordType = Text

abbrev pub type_a : RecordType
type_a = codes "A"

abbrev pub type_aaaa : RecordType
type_aaaa = codes "AAAA"

abbrev pub type_cname : RecordType
type_cname = codes "CNAME"

abbrev pub type_txt : RecordType
type_txt = codes "TXT"

abbrev pub type_srv : RecordType
type_srv = codes "SRV"

abbrev pub type_ptr : RecordType
type_ptr = codes "PTR"

abbrev pub type_mx : RecordType
type_mx = codes "MX"

abbrev pub type_naptr : RecordType
type_naptr = codes "NAPTR"

abbrev pub supported_record_types : List RecordType
supported_record_types =
    type_a ∷ type_aaaa ∷ type_cname ∷ type_txt ∷ type_srv ∷ type_ptr ∷ type_mx ∷ type_naptr ∷ []

unfoldable pub is_supported_record_type : Text → Bool
is_supported_record_type s = contains supported_record_types s

-- `ErrPermanent` and `ErrUnsupportedType`, both wrapped.
abbrev pub unsupported : Error
unsupported = wrap2 (sentinel err_permanent) (sentinel err_unsupported_type)

unfoldable pub parse_record_type : Text → Result RecordType
parse_record_type s = if contains supported_record_types s then ok s else err unsupported

pub record Zone : Type 0 where
  pub name : Name
  pub id : Text

pub record Record : Type 0 where
  pub name : Name
  pub rtype : RecordType
  -- Seconds; 0 leaves it to the zone.
  pub ttl : ℤ
  pub values : List Text

pub record RecordKey : Type 0 where
  pub name : Name
  pub rtype : RecordType

abbrev pub key : Record → RecordKey
key r = record { name = r.name; rtype = r.rtype }

pub record ChangeSet : Type 0 where
  pub create : List Record
  pub update_to : List Record
  pub remove : List Record

abbrev pub no_changes : ChangeSet
no_changes = record { create = []; update_to = []; remove = [] }

abbrev pub is_empty_changes : ChangeSet → Bool
is_empty_changes c = is_empty c.create && is_empty c.update_to && is_empty c.remove

-- `ChangeSet.All`.
unfoldable pub all_records : ChangeSet → List Record
all_records c = c.create ++ (c.update_to ++ c.remove)

-- `append(append([]Record{}, cs.Create...), cs.UpdateTo...)`.
abbrev pub added_records : ChangeSet → List Record
added_records c = c.create ++ c.update_to
