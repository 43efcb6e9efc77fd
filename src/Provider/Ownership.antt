-- ===== src/Provider/Ownership.antt =====
-- Lemmas on the zone index of internal/provider/zoneindex.go: the zone that a name belongs to.
use external_dns_iij_dpf_web.Base.{
  All, All-append, Bool-cases, List, Option, [], ap, eq_list, eq_ℕ, false, has_key, inl, inr,
  insert, lookup, lookup-insert, lookup-insert_self, mem-append_cases, mem-append_left,
  mem-append_right, mem-keep, mem_of_keep, none, not, refl, some, subst, sym, true, ◌++◌, ◌==◌, ◌∙◌,
  ◌∷◌, ◌≡◌, ◌≤◌, ◌⊎◌,
}
use external_dns_iij_dpf_web.Base.Int.{eq_ℤ}
use external_dns_iij_dpf_web.Dnsname.Longest.{IsDeepest, longest_match-IsDeepest}
use external_dns_iij_dpf_web.Dnsname.Name.{Dns, Name, count_labels, eq_name, is_zero, name_eq_iff}
use external_dns_iij_dpf_web.Dnsname.Scope.{contains_name, longest_match}
use external_dns_iij_dpf_web.Provider.Types.{Zone}
use external_dns_iij_dpf_web.Provider.Zoneindex.{
  ZoneIndex, index_from, new_zone_index, owned_by, owner,
}
use mathlib.Core.List.{Memᴰ}

abbrev Finds : List Zone → List (Name × Zone) → Name → Type 0
Finds zones by_name n = (z : Zone) × Memᴰ z zones × (lookup n by_name ≡ some z) × (z.name ≡ n)

-- What the loop keeps: each name of the scope has its zone, and each entry its name.
abbrev IsIndexed : List Zone → List (Name × Zone) → List Name → Type 0
IsIndexed zones by_name names =
    ((n : Name) → Memᴰ n names → Finds zones by_name n)
    × ((n : Name) → has_key n by_name ≡ true → Memᴰ n names)
    × All (λ n. not (is_zero n) ≡ true) names

Finds-insert :
    (zones : List Zone) (by_name : List (Name × Zone)) (names : List Name) (z : Zone) (n : Name)
    → Memᴰ z zones
    → ((n : Name) → Memᴰ n names → Finds zones by_name n)
    → Memᴰ n names ⊎ Memᴰ n (z.name ∷ [])
    → Finds zones (insert z.name z by_name) n
Finds-insert zones by_name names z n m f (inr (Memᴰ.tail k)) = elim k [ ]
Finds-insert zones by_name names z n m f (inr (Memᴰ.head e)) =
    (z, m, rw (e, lookup-insert_self z.name z by_name) refl, sym e)
Finds-insert zones by_name names z n m f (inl k) = elim (Bool-cases (z.name == n)) [
  | inl y ↦ (z, m, lookup-insert z.name n z by_name ∙ rw y refl, (name_eq_iff z.name n).0 y)
  | inr e ↦ let (w, a, b, c) = f n k in (w, a, lookup-insert z.name n z by_name ∙ rw e b, c)
]

has_key-insert :
    (by_name : List (Name × Zone)) (z : Zone) (n : Name)
    → (z.name == n) ≡ false
    → has_key n (insert z.name z by_name) ≡ has_key n by_name
has_key-insert by_name z n e =
    ap (λ (o : Option Zone). elim o [ none ↦ false | some v ↦ true ])
      (lookup-insert z.name n z by_name ∙ rw e refl)

IsIndexed-add :
    (zones : List Zone) (by_name : List (Name × Zone)) (names : List Name) (z : Zone)
    → Memᴰ z zones
    → is_zero z.name ≡ false
    → IsIndexed zones by_name names
    → IsIndexed zones (insert z.name z by_name) (names ++ z.name ∷ [])
IsIndexed-add zones by_name names z m h i = (
  λ n k. Finds-insert zones by_name names z n m i.0 (mem-append_cases names k),
  λ n k. elim (Bool-cases (z.name == n)) [
    | inl y ↦ mem-append_right names (Memᴰ.head (sym ((name_eq_iff z.name n).0 y)))
    | inr e ↦ mem-append_left (z.name ∷ []) (i.1 n (sym (has_key-insert by_name z n e) ∙ k))
  ],
  All-append _ names (z.name ∷ []) i.2 (rw h refl, tt),
)

-- Of an index: the domains have their zones, and every zone with a name is there.
abbrev IsIndexOf : List Zone → ZoneIndex → Type 0
IsIndexOf zones x =
    ((n : Name) → Memᴰ n x.scope.domains → Finds zones x.by_name n)
    × ((z : Zone) → Memᴰ z zones → is_zero z.name ≡ false → Memᴰ z.name x.scope.domains)

-- The zone is still to come, or its name is in the scope.
abbrev Awaits : List Zone → List Name → Zone → Type 0
Awaits zs names z = Memᴰ z zs ⊎ Memᴰ z.name names

Awaits-next :
    (y : Zone) (zs : List Zone) (names names' : List Name)
    → ((n : Name) → Memᴰ n names → Memᴰ n names')
    → (is_zero y.name ≡ false → Memᴰ y.name names')
    → (z : Zone) → is_zero z.name ≡ false
    → Awaits (y ∷ zs) names z
    → Awaits zs names' z
Awaits-next y zs names names' f g z h (inl (Memᴰ.head e)) =
    let same : y.name ≡ z.name = ap (λ (t : Zone). t.name) (sym e) in
    inr (subst (λ (t : Name). Memᴰ t names') same (g (ap is_zero same ∙ h)))
Awaits-next y zs names names' f g z h (inl (Memᴰ.tail m)) = inl m
Awaits-next y zs names names' f g z h (inr m) = inr (f z.name m)

IsIndexOf-index_from :
    (zones : List Zone) (by_name : List (Name × Zone)) (names : List Name) (zs : List Zone)
    → IsIndexed zones by_name names
    → ((z : Zone) → Memᴰ z zs → Memᴰ z zones)
    → ((z : Zone) → Memᴰ z zones → is_zero z.name ≡ false → Memᴰ z zs ⊎ Memᴰ z.name names)
    → IsIndexOf zones (index_from by_name names zs)
unfolding index_from
IsIndexOf-index_from zones by_name names [] i sub left = (
  λ n m. i.0 n (mem_of_keep _ names m).0,
  λ z m h. elim (left z m h) [
    | inl k ↦ elim k [ ]
    | inr k ↦ mem-keep (λ n. not (is_zero n)) k (rw h refl)
  ],
)
IsIndexOf-index_from zones by_name names (y ∷ zs) i sub left = elim (Bool-cases (is_zero y.name)) [
  | inl e ↦ rw e (
      IsIndexOf-index_from zones by_name names zs i (λ z m. sub z (Memᴰ.tail m))
        (λ z m h. Awaits-next y zs names names (λ n k. k) (λ w. cc (e, w)) z h (left z m h)))
  | inr e ↦ elim (Bool-cases (has_key y.name by_name)) [
    | inl k ↦
        rw (e, k)
          (IsIndexOf-index_from zones by_name names zs i (λ z m. sub z (Memᴰ.tail m))
            (λ z m h. Awaits-next y zs names names (λ n k. k) (λ w. i.1 y.name k) z h (left z m h)))
    | inr k ↦
        rw (e, k)
          (IsIndexOf-index_from zones (insert y.name y by_name) (names ++ y.name ∷ []) zs
            (IsIndexed-add zones by_name names y (sub y (Memᴰ.head refl)) e i)
            (λ z m. sub z (Memᴰ.tail m))
            (λ z m h.
              Awaits-next y zs names (names ++ y.name ∷ []) (λ n k. mem-append_left (y.name ∷ []) k)
                (λ w. mem-append_right names (Memᴰ.head refl)) z h (left z m h)))
  ]
]

new_zone_index-IsIndexOf : (zones : List Zone) → IsIndexOf zones (new_zone_index zones)
unfolding new_zone_index
new_zone_index-IsIndexOf zones =
    IsIndexOf-index_from zones [] [] zones (λ n m. elim m [ ], λ n k. cc k, tt) (λ z m. m)
      (λ z m h. inl m)

module _ (d : Dns) where
  -- The zone, or none, is the deepest of the zones that contain the name.
  abbrev pub IsOwner : List Zone → Name → Option Zone → Type 0
  IsOwner zones name none = (z : Zone) → Memᴰ z zones → contains_name d z.name name ≡ false
  IsOwner zones name (some z) =
      Memᴰ z zones
      × (contains_name d z.name name ≡ true)
      × ((y : Zone)
          → Memᴰ y zones
          → contains_name d y.name name ≡ true
          → count_labels d y.name ≤ count_labels d z.name)

  contains_name-ne-zero : (n m : Name) → contains_name d n m ≡ true → is_zero n ≡ false
  unfolding contains_name
  contains_name-ne-zero n m h = elim (Bool-cases (is_zero n)) [ inl y ↦ cc (rw y at h) | inr e ↦ e ]

  owner-eq-lookup :
      (x : ZoneIndex) (name : Name) (o : Option Name)
      → longest_match d x.scope name ≡ o
      → owner d x name ≡ elim o [ none ↦ none | some n ↦ lookup n x.by_name ]
  unfolding owner
  owner-eq-lookup x name o e =
      ap (λ (o : Option Name). elim o [ none ↦ none | some n ↦ lookup n x.by_name ]) e

  IsOwner-of_deepest :
      (zones : List Zone) (x : ZoneIndex) (name : Name) (o : Option Name)
      → IsIndexOf zones x
      → IsDeepest d name (λ y. Memᴰ y x.scope.domains) o
      → IsOwner zones name (elim o [ none ↦ none | some n ↦ lookup n x.by_name ])
  IsOwner-of_deepest zones x name none i deepest = λ z m.
      elim (Bool-cases (contains_name d z.name name)) [
        | inr n ↦ n
        | inl y ↦ deepest z.name (i.1 z m (contains_name-ne-zero z.name name y))
      ]
  IsOwner-of_deepest zones x name (some n) i deepest =
      let (z, m, l, same) = i.0 n deepest.0 in
      subst (λ (o : Option Zone). IsOwner zones name o) (sym l)
        (
          m,
          ap (λ (t : Name). contains_name d t name) same ∙ deepest.1,
          λ y k c.
              subst (λ (t : Name). count_labels d y.name ≤ count_labels d t) (sym same)
                (deepest.2 y.name (i.1 y k (contains_name-ne-zero y.name name c)) c),
        )

  -- The zone that a name belongs to is one of the zones that contain it, with the most labels of
  -- all that do; and a name belongs to no zone only if no zone contains it.
  pub owner-IsOwner :
      (zones : List Zone) (name : Name) → IsOwner zones name (owner d (new_zone_index zones) name)
  owner-IsOwner zones name =
      let x = new_zone_index zones in
      subst (λ (o : Option Zone). IsOwner zones name o)
        (sym (owner-eq-lookup x name (longest_match d x.scope name) refl))
        (IsOwner-of_deepest zones x name (longest_match d x.scope name)
          (new_zone_index-IsIndexOf zones) (longest_match-IsDeepest d x.scope name))

  pub owner_of_owned_by :
      (x : ZoneIndex) (name : Name) (z : Zone)
      → owned_by d x name z ≡ true
      → (y : Zone) × (owner d x name ≡ some y) × (y.name ≡ z.name)
  unfolding owned_by
  owner_of_owned_by x name z h = go (owner d x name) refl h
    where
      go :
          (o : Option Zone)
          → owner d x name ≡ o
          → elim o [ none ↦ false | some y ↦ y.name == z.name ] ≡ true
          → (y : Zone) × (owner d x name ≡ some y) × (y.name ≡ z.name)
      go none e k = cc k
      go (some y) e k = (y, e, (name_eq_iff y.name z.name).0 k)
