-- ===== src/Provider/Adjust.antt =====
-- internal/provider/adjust.go: records in the form that DPF stores.
use external_dns_iij_dpf_web.Base.{
  Bool, List, any, eq_list, eq_ℕ, false, if◌then◌else◌, map, not, ◌==◌,
}
use external_dns_iij_dpf_web.Base.Int.{eq_ℤ, ltb_ℤ, pos, ℤ}
use external_dns_iij_dpf_web.Base.Text.{Text}
use external_dns_iij_dpf_web.Dnsname.Name.{eq_name}
use external_dns_iij_dpf_web.Errors.{err, ok}
use external_dns_iij_dpf_web.Provider.Txt.{TxtCodec, normalize_txt}
use external_dns_iij_dpf_web.Provider.Types.{Record, type_txt}

abbrev pub ttl_unset : ℤ
ttl_unset = pos 0

abbrev pub ttl_min : ℤ
ttl_min = pos 1

abbrev pub ttl_max : ℤ
ttl_max = pos 2147483647

unfoldable pub clamp_ttl : ℤ → ℤ
clamp_ttl ttl =
    if ttl == ttl_unset
    then ttl_unset
    else if ltb_ℤ ttl ttl_min
    then ttl_min
    else if ltb_ℤ ttl_max ttl
    then ttl_max
    else ttl

module _ (t : TxtCodec) where
  -- What the loop of `adjustValues` appends for a value.
  unfoldable pub adjust_value : Text → Text
  adjust_value v = elim (normalize_txt t v) [ ok n ↦ n | err e ↦ v ]

  -- The loop's `changed`: a value was normalised to another.
  unfoldable pub value_changed : Text → Bool
  value_changed v = elim (normalize_txt t v) [ ok n ↦ not (n == v) | err e ↦ false ]

  unfoldable pub adjust_values : Record → List Text
  unfolding adjust_value value_changed
  adjust_values r =
      if not (r.rtype == type_txt)
      then r.values
      else if not (any value_changed r.values)
      then r.values
      else map adjust_value r.values

  unfoldable pub adjust_record : Record → Record
  unfolding clamp_ttl adjust_values
  adjust_record r = record r { ttl = clamp_ttl r.ttl; values = adjust_values r }

  unfoldable pub adjust : List Record → List Record
  unfolding adjust_record
  adjust records = map adjust_record records
