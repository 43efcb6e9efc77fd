-- ===== src/Dpf/Wire.antt =====
-- What dpf-go's `OverwriteRecordsInner` holds of a record, as merge.go reads and writes it.
use external_dns_iij_dpf_web.Base.{
  Bool, Eq, List, Option, [], arith, eq_list, eq_ℕ, if◌then◌else◌, list_eq, list_eq_iff, ltb, map,
  none, not, some, true, ℕ, ◌%◌, ◌&&◌, ◌-◌, ◌==◌, ◌^◌, ◌↔◌, ◌∷◌, ◌≡◌,
}
use external_dns_iij_dpf_web.Base.Int.{eq_ℤ, negsuc, pos, ℤ}
use external_dns_iij_dpf_web.Base.Text.{Text}
use external_dns_iij_dpf_web.Dnsname.Name.{Dns, eq_name, parse}
use external_dns_iij_dpf_web.Dpf.Rrtype.{Rrtype, eq_rrtype, rrtype_eq, rrtype_eq_iff, to_dpf}
use external_dns_iij_dpf_web.Errors.{Result, err, err_permanent, ok, sentinel, wrap2, ◌>>=◌}
use external_dns_iij_dpf_web.Provider.Txt.{TxtCodec, normalize_txt}
use external_dns_iij_dpf_web.Provider.Types.{Record, type_txt}

-- `labels` is none for a nil map; `ttl` is none for null; an item of `rdata` is its `Value`.
pub record WireRecord : Type 0 where
  pub name : Text
  pub rrtype : Rrtype
  pub ttl : Option ℤ
  pub rdata : List (Option Text)
  pub labels : Option (List (Text × Text))
  pub description : Text

pub record MergeKey : Type 0 where
  pub name : Text
  pub rrtype : Rrtype

abbrev pub merge_key_eq : MergeKey → MergeKey → Bool
merge_key_eq a b = list_eq a.name b.name && rrtype_eq a.rrtype b.rrtype

pub merge_key_eq_iff : (a b : MergeKey) → (merge_key_eq a b ≡ true) ↔ (a ≡ b)
merge_key_eq_iff a b = ground (arith, list_eq_iff a.name b.name, rrtype_eq_iff a.rrtype b.rrtype)

instance abbrev pub eq_merge_key : Eq MergeKey
eq_merge_key = record { same = merge_key_eq; same_iff = merge_key_eq_iff }

-- `recordKey{name: r.Name, rrtype: r.Rrtype}`: the name as it stands.
abbrev pub raw_key : WireRecord → MergeKey
raw_key r = record { name = r.name; rrtype = r.rrtype }

module _ (d : Dns) where
  unfoldable pub key_of : Text → Rrtype → Result MergeKey
  key_of name rrtype = do n ← parse d name; ok (record { name = n.canonical; rrtype = rrtype })

  -- `keyOf`, and the raw key where the name does not parse.
  unfoldable pub wire_key : WireRecord → MergeKey
  unfolding key_of
  wire_key r = elim (key_of r.name r.rrtype) [ ok k ↦ k | err e ↦ raw_key r ]

unfoldable pub provider_key : Record → Result MergeKey
provider_key r = do
  rrtype ← to_dpf r.rtype
  ok (record { name = r.name.canonical; rrtype = rrtype })

-- Go's `int32(v)`: the value modulo 2^32, between -2^31 and 2^31 - 1.
unfoldable pub int32 : ℤ → ℤ
int32 v =
    let m : ℕ = elim v [ pos n ↦ n % 2 ^ 32 | negsuc n ↦ 2 ^ 32 - 1 - n % 2 ^ 32 ] in
    if ltb m (2 ^ 31) then pos m else negsuc (2 ^ 32 - 1 - m)

unfoldable pub to_ttl : ℤ → Option ℤ
unfolding int32
to_ttl ttl = if ttl == pos 0 then none else some (int32 ttl)

abbrev present : Text → Option Text
present v = some v

abbrev pub to_rdata : List Text → List (Option Text)
to_rdata values = map present values

unfoldable pub normalize_all : TxtCodec → List Text → Result (List Text)
normalize_all t [] = ok []
normalize_all t (v ∷ vs) = elim (normalize_txt t v) [
  | ok n ↦ normalize_all t vs >>= λ ns. ok (n ∷ ns)
  | err e ↦ err (wrap2 (sentinel err_permanent) e)
]

unfoldable pub normalize_values : TxtCodec → Record → Result (List Text)
unfolding normalize_all
normalize_values t r = if not (r.rtype == type_txt) then ok r.values else normalize_all t r.values
