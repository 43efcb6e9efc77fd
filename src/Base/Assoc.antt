-- ===== src/Base/Assoc.antt =====
-- Go's `map` as an association list: the key's first entry counts, a write to a key that is there
-- replaces its value in place, and a write to a new key adds an entry.
use mathlib.Core.Path.{◌≡◌, refl, subst, sym}
use mathlib.Core.Logic.{inl, inr}
use mathlib.Core.Bool.{Bool, true, false}
use mathlib.Core.Option.{Option, none, some}
use mathlib.Core.List.{List, [], ◌∷◌, map}
use native.Mathlib.Omega.{arith}
use external_dns_iij_dpf_web.Base.Tests.{Eq, ◌==◌, ==_refl, if◌then◌else◌, Bool-cases}
use external_dns_iij_dpf_web.Base.Lists.{all, any}

module _ {ℓ κ μ} {K : Type ℓ} {V : Type κ} where
  abbrev pub AllEntries : (K → V → Type μ) → List (K × V) → Type μ
  AllEntries P [] = Unit
  AllEntries P ((k, v) ∷ m) = P k v × AllEntries P m

module _ {ℓ κ} {K : Type ℓ} {V : Type κ} ⦃e : Eq K⦄ where
  abbrev pub lookup : K → List (K × V) → Option V
  lookup k [] = none
  lookup k ((j, v) ∷ m) = if j == k then some v else lookup k m

  abbrev pub has_key : K → List (K × V) → Bool
  has_key k m = elim (lookup k m) [ none ↦ false | some v ↦ true ]

  unfoldable pub insert : K → V → List (K × V) → List (K × V)
  insert k v [] = (k, v) ∷ []
  insert k v ((j, w) ∷ m) = let rest = insert k v m in if j == k then (j, v) ∷ m else (j, w) ∷ rest

  unfoldable pub delete : K → List (K × V) → List (K × V)
  delete k [] = []
  delete k ((j, v) ∷ m) = let rest = delete k m in if j == k then rest else (j, v) ∷ rest

  pub lookup-insert :
      (k j : K) (v : V) (m : List (K × V))
      → lookup j (insert k v m) ≡ (if k == j then some v else lookup j m)
  unfolding insert
  lookup-insert k j v [] = refl
  lookup-insert k j v ((i, w) ∷ m) =
      ground (arith, e.same_iff k j, e.same_iff i k, e.same_iff i j, lookup-insert k j v m)

  pub lookup-delete :
      (k j : K) (m : List (K × V)) → lookup j (delete k m) ≡ (if k == j then none else lookup j m)
  unfolding delete
  lookup-delete k j [] = ground arith
  lookup-delete k j ((i, w) ∷ m) =
      ground (arith, e.same_iff k j, e.same_iff i k, e.same_iff i j, lookup-delete k j m)

  pub lookup-insert_self : (k : K) (v : V) (m : List (K × V)) → lookup k (insert k v m) ≡ some v
  lookup-insert_self k v m = rw (lookup-insert, ==_refl k)

  -- What holds of every entry of a table holds of what is looked up.
  pub lookup-AllEntries {μ} :
      (P : K → V → Type μ) {k : K} {v : V} (m : List (K × V))
      → AllEntries P m
      → lookup k m ≡ some v
      → P k v
  lookup-AllEntries P [] h e = cc
  lookup-AllEntries P {k} {v} ((j, w) ∷ m) h x = elim (Bool-cases (j == k)) [
    | inl y ↦
        let same : w ≡ v = ground arith in
        subst (λ (u : K). P u v) ((e.same_iff j k).0 y) (subst (λ (u : V). P j u) same h.0)
    | inr n ↦ lookup-AllEntries P m h.1 (ground arith)
  ]

  pub has_key-eq-any :
      (k : K) (m : List (K × V)) → has_key k m ≡ any (λ x. x == k) (map (λ (p : K × V). p.0) m)
  has_key-eq-any k [] = refl
  has_key-eq-any k ((j, w) ∷ m) = ground (arith, has_key-eq-any k m)

  pub AllEntries-insert {μ} :
      (P : K → V → Type μ) (k : K) (v : V) (m : List (K × V))
      → AllEntries P m
      → P k v
      → AllEntries P (insert k v m)
  unfolding insert
  AllEntries-insert P k v [] h p = (p, tt)
  AllEntries-insert P k v ((j, w) ∷ m) h p = elim (Bool-cases (j == k)) [
    | inl y ↦ rw y (subst (λ (x : K). P x v) (sym ((e.same_iff j k).0 y)) p, h.1)
    | inr n ↦ rw n (h.0, AllEntries-insert P k v m h.1 p)
  ]

module _ {ℓ κ} {K : Type ℓ} {V : Type κ} where
  pub AllEntries-imp {μ ν} :
      (P : K → V → Type μ) (Q : K → V → Type ν) (m : List (K × V))
      → ((k : K) (v : V) → P k v → Q k v)
      → AllEntries P m
      → AllEntries Q m
  AllEntries-imp P Q [] f h = tt
  AllEntries-imp P Q ((k, v) ∷ m) f h = (f k v h.0, AllEntries-imp P Q m f h.1)

  pub all-AllEntries :
      (p : K × V → Bool) (m : List (K × V)) → all p m ≡ true → AllEntries (λ k v. p (k, v) ≡ true) m
  all-AllEntries p [] h = tt
  all-AllEntries p ((k, v) ∷ m) h = (ground arith, all-AllEntries p m (ground arith))

  pub AllEntries-all :
      (p : K × V → Bool) (m : List (K × V)) → AllEntries (λ k v. p (k, v) ≡ true) m → all p m ≡ true
  AllEntries-all p [] h = refl
  AllEntries-all p ((k, v) ∷ m) h = rw (h.0) (AllEntries-all p m h.1)
