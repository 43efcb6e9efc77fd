-- ===== src/Provider/Parts.antt =====
-- The three parts of a change set, as internal/provider/apply.go picks them, and lemmas on
-- adding a record to one of them.
use external_dns_iij_dpf_web.Base.{
  List, [], inl, inr, map, mem-append_cases, mem-append_left, mem-append_right, refl, ◌++◌, ◌∷◌,
  ◌≡◌, ◌⊎◌,
}
use external_dns_iij_dpf_web.Dnsname.Name.{Dns}
use external_dns_iij_dpf_web.Errors.{>>=-eq-ok, Result, ok, ok-injective, ◌>>=◌}
use external_dns_iij_dpf_web.Provider.Apply.{
  Groups, Part, ZoneGroup, add_to, assign_all, creating, deleting, group_by_zone, no_groups,
  part_of, sort_groups, to_group, updating,
}
use external_dns_iij_dpf_web.Provider.Types.{ChangeSet, Record, Zone}
use external_dns_iij_dpf_web.Provider.Zoneindex.{new_zone_index}
use mathlib.Core.List.{Memᴰ}

-- What `add_to` adds.
pub mem-add_to :
    (p q : Part) (r a : Record) (c : ChangeSet)
    → Memᴰ a (part_of p (add_to q r c))
    → Memᴰ a (part_of p c) ⊎ ((p ≡ q) × (a ≡ r))
mem-add_to p q r a c m = go p q m
  where
    last : (xs : List Record) (p : Part) → Memᴰ a (xs ++ r ∷ []) → Memᴰ a xs ⊎ ((p ≡ p) × (a ≡ r))
    last xs p m = elim (mem-append_cases xs m) [
      | inl k ↦ inl k
      | inr (Memᴰ.head e) ↦ inr (refl, e)
      | inr (Memᴰ.tail k) ↦ elim k [ ]
    ]

    go :
        (p q : Part)
        → Memᴰ a (part_of p (add_to q r c))
        → Memᴰ a (part_of p c) ⊎ ((p ≡ q) × (a ≡ r))
    go creating creating m = last c.create creating m
    go updating updating m = last c.update_to updating m
    go deleting deleting m = last c.remove deleting m
    go creating updating m = inl m
    go creating deleting m = inl m
    go updating creating m = inl m
    go updating deleting m = inl m
    go deleting creating m = inl m
    go deleting updating m = inl m

pub mem-add_to_old :
    (p q : Part) (r a : Record) (c : ChangeSet)
    → Memᴰ a (part_of p c)
    → Memᴰ a (part_of p (add_to q r c))
mem-add_to_old creating creating r a c m = mem-append_left (r ∷ []) m
mem-add_to_old updating updating r a c m = mem-append_left (r ∷ []) m
mem-add_to_old deleting deleting r a c m = mem-append_left (r ∷ []) m
mem-add_to_old creating updating r a c m = m
mem-add_to_old creating deleting r a c m = m
mem-add_to_old updating creating r a c m = m
mem-add_to_old updating deleting r a c m = m
mem-add_to_old deleting creating r a c m = m
mem-add_to_old deleting updating r a c m = m

pub mem-add_to_new : (p : Part) (r : Record) (c : ChangeSet) → Memᴰ r (part_of p (add_to p r c))
mem-add_to_new creating r c = mem-append_right c.create (Memᴰ.head refl)
mem-add_to_new updating r c = mem-append_right c.update_to (Memᴰ.head refl)
mem-add_to_new deleting r c = mem-append_right c.remove (Memᴰ.head refl)

-- Inversion of a grouping that succeeds: the groups behind each of the three loops.
pub group_by_zone-steps :
    (d : Dns) (cs : ChangeSet) (zones : List Zone) (gs : List ZoneGroup)
    → group_by_zone d cs zones ≡ ok gs
    → (g₁ : Groups) × (g₂ : Groups) × (g₃ : Groups) × (assign_all d
          (new_zone_index zones)
          creating
          cs.create
          no_groups
        ≡ ok g₁)
      × (assign_all d (new_zone_index zones) updating cs.update_to g₁ ≡ ok g₂)
      × (assign_all d (new_zone_index zones) deleting cs.remove g₂ ≡ ok g₃)
      × (sort_groups (map (to_group g₃.owners) g₃.grouped) ≡ gs)
unfolding group_by_zone
group_by_zone-steps d cs zones gs h =
    let idx = new_zone_index zones in
    let finish : Groups → Result (List ZoneGroup) =
      λ g. ok (sort_groups (map (to_group g.owners) g.grouped)) in
    let (g₁, e₁, f₁) =
      >>=-eq-ok (assign_all d idx creating cs.create no_groups)
        (λ g. assign_all d idx updating cs.update_to g >>= λ g'.
          assign_all d idx deleting cs.remove g' >>= finish)
        h in
    let (g₂, e₂, f₂) =
      >>=-eq-ok (assign_all d idx updating cs.update_to g₁)
        (λ g'. assign_all d idx deleting cs.remove g' >>= finish) f₁ in
    let (g₃, e₃, f₃) = >>=-eq-ok (assign_all d idx deleting cs.remove g₂) finish f₂ in
    (g₁, g₂, g₃, e₁, e₂, e₃, ok-injective f₃)
