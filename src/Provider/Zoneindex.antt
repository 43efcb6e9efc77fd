-- ===== src/Provider/Zoneindex.antt =====
-- internal/provider/zoneindex.go: which zone a name belongs to, for reading and for writing.
use external_dns_iij_dpf_web.Base.{
  Bool, List, Option, [], eq_list, eq_ℕ, false, has_key, if◌then◌else◌, insert, lookup, none, some,
  ◌++◌, ◌==◌, ◌∷◌,
}
use external_dns_iij_dpf_web.Base.Int.{eq_ℤ}
use external_dns_iij_dpf_web.Dnsname.Name.{Dns, Name, eq_name, is_zero}
use external_dns_iij_dpf_web.Dnsname.Scope.{Scope, longest_match, new_scope}
use external_dns_iij_dpf_web.Provider.Types.{Zone}

pub record ZoneIndex : Type 0 where
  pub scope : Scope
  pub by_name : List (Name × Zone)

-- The loop of `newZoneIndex`, over what it has built so far.
unfoldable pub index_from : List (Name × Zone) → List Name → List Zone → ZoneIndex
index_from by_name names [] = record { scope = new_scope names; by_name = by_name }
index_from by_name names (z ∷ zs) =
    let skip = index_from by_name names zs in
    let next = index_from (insert z.name z by_name) (names ++ z.name ∷ []) zs in
    if is_zero z.name then skip else if has_key z.name by_name then skip else next

unfoldable pub new_zone_index : List Zone → ZoneIndex
unfolding index_from insert
new_zone_index zones = index_from [] [] zones

module _ (d : Dns) where
  unfoldable pub owner : ZoneIndex → Name → Option Zone
  owner x name = elim (longest_match d x.scope name) [ none ↦ none | some n ↦ lookup n x.by_name ]

  unfoldable pub owned_by : ZoneIndex → Name → Zone → Bool
  owned_by x name zone = elim (owner x name) [ none ↦ false | some z ↦ z.name == zone.name ]
