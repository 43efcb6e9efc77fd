-- ===== src/Dnsname/Longest.antt =====
-- Lemmas on the longest match of internal/dnsname/scope.go.
use external_dns_iij_dpf_web.Base.{
  All, All-mem, Bool-cases, List, Option, [], any, any_of_mem, any_of_none, ap, arith, false, inl,
  inr, ltb, none, refl, some, sym, true, ◌∷◌, ◌≡◌, ◌≤◌, ◌⊎◌,
}
use external_dns_iij_dpf_web.Dnsname.Laws.{
  DnsLaws, IsCanonical, contains_name_antisymm, contains_name_total,
}
use external_dns_iij_dpf_web.Dnsname.Name.{Dns, Name, count_labels, is_zero}
use external_dns_iij_dpf_web.Dnsname.Scope.{
  Scope, contains_name, deeper, in_scope, longest_from, longest_match,
}
use mathlib.Core.List.{Memᴰ}

module _ (d : Dns) where
  -- `best` is the deepest of the domains in `P` that contain the name, none where none does.
  abbrev pub IsDeepest : Name → (Name → Type 0) → Option Name → Type 0
  IsDeepest name P none = (y : Name) → P y → contains_name d y name ≡ false
  IsDeepest name P (some z) =
      P z
      × (contains_name d z name ≡ true)
      × ((y : Name) → P y → contains_name d y name ≡ true → count_labels d y ≤ count_labels d z)

  IsDeepest-of_iff :
      (name : Name) (P Q : Name → Type 0) (best : Option Name)
      → ((y : Name) → P y → Q y)
      → ((y : Name) → Q y → P y)
      → IsDeepest name P best
      → IsDeepest name Q best
  IsDeepest-of_iff name P Q none f g h = λ y q. h y (g y q)
  IsDeepest-of_iff name P Q (some z) f g h = (f z h.0, h.1, λ y q. h.2 y (g y q))

  abbrev And : (Name → Type 0) → Name → Name → Type 0
  And P x y = P y ⊎ (y ≡ x)

  IsDeepest-deeper :
      (name x : Name) (P : Name → Type 0) (best : Option Name)
      → IsDeepest name P best
      → IsDeepest name (And P x) (deeper d name x best)
  unfolding deeper
  IsDeepest-deeper name x P none h = elim (Bool-cases (contains_name d x name)) [
    | inl y ↦
        rw y
          (inr refl, y, λ z. elim [ inl p ↦ λ e. cc (e, h z p) | inr q ↦ λ e. rw q (omega arith) ])
    | inr n ↦ rw n (λ z. elim [ inl p ↦ h z p | inr q ↦ rw q n ])
  ]
  IsDeepest-deeper name x P (some b) h = elim (Bool-cases (contains_name d x name)) [
    | inl y ↦ elim (Bool-cases (ltb (count_labels d b) (count_labels d x))) [
      | inl l ↦
          rw (y, l)
            (
              inr refl,
              y,
              λ z. elim [
                | inl p ↦ λ e. ground (arith, h.2 z p e)
                | inr q ↦ λ e. rw q (omega arith)
              ],
            )
      | inr l ↦
          rw (y, l)
            (inl h.0, h.1, λ z. elim [ inl p ↦ λ e. h.2 z p e | inr q ↦ λ e. rw q (ground arith) ])
    ]
    | inr n ↦ rw n (
      inl h.0,
      h.1,
      λ z. elim [
        | inl p ↦ λ e. h.2 z p e
        | inr q ↦ λ e. cc (e, n, ap (λ (t : Name). contains_name d t name) q)
      ],
    )
  ]

  abbrev Or : (Name → Type 0) → List Name → Name → Type 0
  Or P xs y = P y ⊎ Memᴰ y xs

  IsDeepest-longest_from :
      (name : Name) (P : Name → Type 0) (best : Option Name) (xs : List Name)
      → IsDeepest name P best
      → IsDeepest name (Or P xs) (longest_from d name best xs)
  unfolding longest_from
  IsDeepest-longest_from name P best [] h =
      IsDeepest-of_iff name P (Or P []) best (λ y p. inl p)
        (λ y. elim [ inl p ↦ p | inr m ↦ elim m [ ] ]) h
  IsDeepest-longest_from name P best (x ∷ xs) h =
      IsDeepest-of_iff name (Or (And P x) xs) (Or P (x ∷ xs))
        (longest_from d name (deeper d name x best) xs)
        (λ y. elim [
          | inl (inl p) ↦ inl p
          | inl (inr e) ↦ inr (Memᴰ.head e)
          | inr m ↦ inr (Memᴰ.tail m)
        ])
        (λ y. elim [ inl p ↦ inl (inl p) | inr m ↦ Mem-split y m ])
        (IsDeepest-longest_from name (And P x) (deeper d name x best) xs
          (IsDeepest-deeper name x P best h))
    where
      Mem-split : (y : Name) → Memᴰ y (x ∷ xs) → Or (And P x) xs y
      Mem-split y (Memᴰ.head e) = inl (inr e)
      Mem-split y (Memᴰ.tail m) = inr m

  longest_from-IsDeepest :
      (name : Name) (xs : List Name) → IsDeepest name (λ y. Memᴰ y xs) (longest_from d name none xs)
  longest_from-IsDeepest name xs =
      IsDeepest-of_iff name (Or (λ y. ⊥) xs) (λ y. Memᴰ y xs) (longest_from d name none xs)
        (λ y. elim [ inl p ↦ absurd p | inr m ↦ m ]) (λ y m. inr m)
        (IsDeepest-longest_from name (λ y. ⊥) none xs (λ y p. absurd p))

  -- The longest match of a scope is a domain of it that contains the name, with the most labels of
  -- all that do, and there is none exactly if no domain of the scope contains the name.
  pub longest_match-IsDeepest :
      (s : Scope) (name : Name) → IsDeepest name (λ y. Memᴰ y s.domains) (longest_match d s name)
  unfolding longest_match contains_name
  longest_match-IsDeepest s name = go s.domains refl
    where
      go :
          (xs : List Name)
          → s.domains ≡ xs
          → IsDeepest name (λ y. Memᴰ y s.domains) (longest_match d s name)
      go [] e = rw e (λ y m. elim m [ ])
      go (x ∷ xs) e = elim (Bool-cases (is_zero name)) [
        | inl z ↦ rw (e, z) (λ y m. ground (arith, z))
        | inr n ↦ rw (e, n) (longest_from-IsDeepest name (x ∷ xs))
      ]

  -- A name is in scope exactly if a domain of the scope contains it.
  pub in_scope-eq-any :
      (s : Scope) (name : Name) → in_scope d s name ≡ any (λ x. contains_name d x name) s.domains
  unfolding in_scope
  in_scope-eq-any s name = go (longest_match d s name) refl
    where
      go :
          (best : Option Name)
          → longest_match d s name ≡ best
          → in_scope d s name ≡ any (λ x. contains_name d x name) s.domains
      go none e =
          let h : IsDeepest name (λ y. Memᴰ y s.domains) none =
            rw e at (longest_match-IsDeepest s name) in
          rw (e, in_scope) (sym (any_of_none (λ x. contains_name d x name) s.domains h))
      go (some z) e =
          let h : IsDeepest name (λ y. Memᴰ y s.domains) (some z) =
            rw e at (longest_match-IsDeepest s name) in
          rw (e, in_scope) (sym (any_of_mem (λ x. contains_name d x name) s.domains h.0 h.1))

  module _ (laws : DnsLaws d) (name : Name) (canonical : IsCanonical d name) where
    abbrev AllCanonical : (Name → Type 0) → Type 0
    AllCanonical P = (y : Name) → P y → IsCanonical d y

    IsDeepest-unique :
        (P : Name → Type 0) (a b : Option Name)
        → AllCanonical P
        → IsDeepest name P a
        → IsDeepest name P b
        → a ≡ b
    IsDeepest-unique P none none c h k = refl
    IsDeepest-unique P none (some z) c h k = cc (k.1, h z k.0)
    IsDeepest-unique P (some y) none c h k = cc (h.1, k y h.0)
    IsDeepest-unique P (some y) (some z) c h k =
        let within : contains_name d y z ≡ true =
          contains_name_total laws y z name (c y h.0) (c z k.0) canonical h.1 k.1 (k.2 y h.0 h.1) in
        ap (λ (t : Name). some t)
          (contains_name_antisymm laws y z (c y h.0) (c z k.0) within (h.2 z k.0 k.1))

    -- Of canonical names, the longest match depends on which domains a scope has, and neither on
    -- their order nor on how often they stand there.
    longest_match_ext :
        (s t : Scope)
        → All (IsCanonical d) s.domains
        → ((y : Name) → Memᴰ y s.domains → Memᴰ y t.domains)
        → ((y : Name) → Memᴰ y t.domains → Memᴰ y s.domains)
        → longest_match d s name ≡ longest_match d t name
    longest_match_ext s t c f g =
        IsDeepest-unique (λ y. Memᴰ y s.domains) (longest_match d s name) (longest_match d t name)
          (λ y m. All-mem (IsCanonical d) c m) (longest_match-IsDeepest s name)
          (IsDeepest-of_iff name (λ y. Memᴰ y t.domains) (λ y. Memᴰ y s.domains)
            (longest_match d t name) g f (longest_match-IsDeepest t name))
