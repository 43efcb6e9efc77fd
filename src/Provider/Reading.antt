-- ===== src/Provider/Reading.antt =====
-- Lemmas on `Records` of internal/provider/provider.go.
use external_dns_iij_dpf_web.Base.{
  All, All-mem, Bool, Bool-cases, List, Option, [], any_of_mem, ap, arith, false, if◌then◌else◌,
  inl, inr, keep, mem_of_any, refl, some, subst, sym, true, ◌++◌, ◌||◌, ◌∙◌, ◌∷◌, ◌≡◌,
}
use external_dns_iij_dpf_web.Dnsname.Laws.{
  DnsLaws, IsCanonical, IsCanonical-is_zero, contains_name_comparable,
}
use external_dns_iij_dpf_web.Dnsname.Longest.{in_scope-eq-any}
use external_dns_iij_dpf_web.Dnsname.Name.{Dns, Name}
use external_dns_iij_dpf_web.Dnsname.Scope.{Scope, contains_name, in_scope, is_empty_scope}
use external_dns_iij_dpf_web.Errors.{ok}
use external_dns_iij_dpf_web.Provider.Backend.{Backend}
use external_dns_iij_dpf_web.Provider.Ownership.{IsOwner, owner-IsOwner, owner_of_owned_by}
use external_dns_iij_dpf_web.Provider.Service.{gather, records, visible, zone_is_relevant}
use external_dns_iij_dpf_web.Provider.Types.{Record, Zone}
use external_dns_iij_dpf_web.Provider.Zoneindex.{ZoneIndex, new_zone_index}
use mathlib.Core.List.{Memᴰ}

module _ {d : Dns} (laws : DnsLaws d) where
  -- A zone has no record to show unless it is relevant.
  zone_is_relevant_of_visible :
      (scope : Scope) (zones : List Zone) (z : Zone) (r : Record)
      → All (IsCanonical d) scope.domains
      → IsCanonical d z.name
      → IsCanonical d r.name
      → visible d scope (new_zone_index zones) z r ≡ true
      → zone_is_relevant d scope z ≡ true
  unfolding zone_is_relevant
  zone_is_relevant_of_visible scope zones z r cs cz cr h =
      let (y, e, same) = owner_of_owned_by d (new_zone_index zones) r.name z (ground arith) in
      let w : IsOwner d zones r.name (some y) =
        subst (λ (o : Option Zone). IsOwner d zones r.name o) e (owner-IsOwner d zones r.name) in
      let holds : contains_name d z.name r.name ≡ true =
        ap (λ (t : Name). contains_name d t r.name) (sym same) ∙ w.1 in
      let inside : in_scope d scope r.name ≡ true = ground arith in
      let (n, m, k) =
        mem_of_any (λ x. contains_name d x r.name) scope.domains
          (sym (in_scope-eq-any d scope r.name) ∙ inside) in
      let cn : IsCanonical d n = All-mem (IsCanonical d) cs m in
      rw (IsCanonical-is_zero laws z.name cz) (
        any_of_mem (λ n. contains_name d n z.name || contains_name d z.name n) scope.domains m
          (contains_name_comparable laws n z.name r.name cn cz cr k holds))

-- Nothing of what a zone lists is to be shown.
keep-nil :
    {A : Type 0} (p : A → Bool) (xs : List A) → ((a : A) → Memᴰ a xs → p a ≡ false) → keep p xs ≡ []
keep-nil p [] h = refl
keep-nil p (x ∷ xs) h = rw (h x (Memᴰ.head refl)) (keep-nil p xs (λ a m. h a (Memᴰ.tail m)))

module _ {S : Type 0} (d : Dns) (scope : Scope) (b : Backend S) (table : Zone → List Record) where
  -- The records of the zones, one zone after the other, that are in scope and owned by their zone.
  abbrev pub shown : ZoneIndex → List Zone → List Record
  shown idx [] = []
  shown idx (z ∷ zs) = keep (visible d scope idx z) (table z) ++ shown idx zs

  -- The backend lists what `table` holds.
  abbrev pub IsListing : Type 0
  IsListing = (z : Zone) (s : S) → b.list_records z s ≡ (ok (table z), s)

  module _ (laws : DnsLaws d) (canonical : All (IsCanonical d) scope.domains)
      (named : (z : Zone) → All (λ r. IsCanonical d r.name) (table z)) (listing : IsListing) where
    shown_none :
        (zones : List Zone) (z : Zone)
        → IsCanonical d z.name
        → zone_is_relevant d scope z ≡ false
        → keep (visible d scope (new_zone_index zones) z) (table z) ≡ []
    shown_none zones z c n = keep-nil (visible d scope (new_zone_index zones) z) (table z) (λ r m.
        elim (Bool-cases (visible d scope (new_zone_index zones) z r)) [
          | inr e ↦ e
          | inl e ↦ cc (
            n,
            zone_is_relevant_of_visible laws scope zones z r canonical c
                (All-mem (λ r. IsCanonical d r.name) (named z) m) e,
          )
        ])

    gather-shown :
        (zones zs : List Zone) (s : S)
        → All (λ z. IsCanonical d z.name) zs
        → gather d scope b (new_zone_index zones) zs s ≡ (ok (shown (new_zone_index zones) zs), s)
    unfolding gather
    gather-shown zones [] s c = refl
    gather-shown zones (z ∷ zs) s c = elim (Bool-cases (zone_is_relevant d scope z)) [
      | inl y ↦ rw (y, listing, gather-shown zones zs s c.1) refl
      | inr n ↦ rw (n, shown_none zones z c.0 n) (gather-shown zones zs s c.1)
    ]

    -- Over a backend that lists fixed records, `Records` returns, of every zone, exactly the
    -- records that are in scope and whose name belongs to that zone: to skip the zones that are
    -- not relevant loses none. All names are in canonical form. An empty scope asks for no zone.
    pub records-shown :
        (zones : List Zone) (s s' : S)
        → b.list_zones s ≡ (ok zones, s')
        → All (λ z. IsCanonical d z.name) zones
        → records d scope b s ≡ (
            if is_empty_scope scope
            then (ok [], s)
            else (ok (shown (new_zone_index zones) zones), s'))
    unfolding records
    records-shown zones s s' e c = elim (Bool-cases (is_empty_scope scope)) [
      | inl y ↦ rw y refl
      | inr n ↦ rw (n, e) (gather-shown zones zones s' c)
    ]
