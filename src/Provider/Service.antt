-- ===== src/Provider/Service.antt =====
-- internal/provider/provider.go: `Filters` and `Records`. What it logs is
-- in Provider/Observed; spans are left out.
use external_dns_iij_dpf_web.Base.{
  Bool, List, [], any, false, if◌then◌else◌, keep, map, ◌&&◌, ◌++◌, ◌||◌, ◌∷◌,
}
use external_dns_iij_dpf_web.Base.Text.{Text}
use external_dns_iij_dpf_web.Calls.{Call, and_then, pure, wrapping}
use external_dns_iij_dpf_web.Dnsname.Name.{Dns, is_zero}
use external_dns_iij_dpf_web.Dnsname.Scope.{Scope, contains_name, in_scope, is_empty_scope}
use external_dns_iij_dpf_web.Provider.Backend.{Backend}
use external_dns_iij_dpf_web.Provider.Types.{Record, Zone}
use external_dns_iij_dpf_web.Provider.Zoneindex.{ZoneIndex, new_zone_index, owned_by}

module _ (d : Dns) where
  unfoldable pub filters : Scope → List Text
  filters scope = map (λ n. n.canonical) scope.domains

  unfoldable pub zone_is_relevant : Scope → Zone → Bool
  zone_is_relevant scope z =
      if is_zero z.name
      then false
      else any (λ n. contains_name d n z.name || contains_name d z.name n) scope.domains

  -- A record of a zone that is returned: in scope, and in the zone that its name belongs to.
  abbrev pub visible : Scope → ZoneIndex → Zone → Record → Bool
  visible scope idx z r = in_scope d scope r.name && owned_by d idx r.name z

module _ {S : Type 0} (d : Dns) (scope : Scope) (b : Backend S) where
  -- The loop over the zones.
  unfoldable pub gather : ZoneIndex → List Zone → Call S (List Record)
  gather idx [] = pure []
  gather idx (z ∷ zs) =
      let rest = gather idx zs in
      let found : Call S (List Record) =
        and_then (wrapping (b.list_records z))
          λ rs. and_then rest λ more. pure (keep (visible d scope idx z) rs ++ more) in
      if zone_is_relevant d scope z then found else rest

  unfoldable pub records : Call S (List Record)
  unfolding gather
  records =
      if is_empty_scope scope
      then pure []
      else and_then b.list_zones λ zones. gather (new_zone_index zones) zones
