-- ===== src/Base/Lists.antt =====
-- Lists measured by native numbers, Boolean searches over a list, and their reading as predicates.
use Prim.Native.Nat.{ℕ, suc, ◌+◌}
use mathlib.Core.Path.{◌∙◌, ◌≡◌, refl, ap, subst, sym}
use mathlib.Core.Logic.{◌⊎◌, inl, inr}
use mathlib.Core.Bool.{Bool, true, false, ◌&&◌, ◌||◌}
use mathlib.Core.Option.{Option, none, some}
use mathlib.Core.List.{map, List, [], ◌∷◌, ◌++◌, Memᴰ}
use native.Mathlib.Omega.{arith}
use external_dns_iij_dpf_web.Base.Tests.{Option-cases, if◌then◌else◌, Bool-cases, Eq, ◌==◌}

module _ {ℓ} {A : Type ℓ} where
  abbrev pub length : List A → ℕ
  length [] = 0
  length (x ∷ xs) = suc (length xs)

  pub length-append : (xs ys : List A) → length (xs ++ ys) ≡ length xs + length ys
  length-append [] ys = omega arith
  length-append (x ∷ xs) ys = omega (arith, length-append xs ys)

  abbrev pub is_empty : List A → Bool
  is_empty [] = true
  is_empty (x ∷ xs) = false

  abbrev pub any : (A → Bool) → List A → Bool
  any p [] = false
  any p (x ∷ xs) = p x || any p xs

  abbrev pub all : (A → Bool) → List A → Bool
  all p [] = true
  all p (x ∷ xs) = p x && all p xs

  -- The elements that pass a test, in their order: the loop with `continue`.
  abbrev pub keep : (A → Bool) → List A → List A
  keep p [] = []
  keep p (x ∷ xs) = let rest = keep p xs in if p x then x ∷ rest else rest

  abbrev pub add_some : Option A → List A → List A
  add_some none xs = xs
  add_some (some x) xs = x ∷ xs

  pub keep-append : (p : A → Bool) (xs ys : List A) → keep p (xs ++ ys) ≡ keep p xs ++ keep p ys
  keep-append p [] ys = refl
  keep-append p (x ∷ xs) ys = ground (arith, keep-append p xs ys)

  pub keep-keep : (p : A → Bool) (xs : List A) → keep p (keep p xs) ≡ keep p xs
  keep-keep p [] = refl
  keep-keep p (x ∷ xs) = elim (Bool-cases (p x)) [
    | inl h ↦ rw h (rw h (ap (λ (t : List A). x ∷ t) (keep-keep p xs)))
    | inr h ↦ rw h (keep-keep p xs)
  ]

module _ {ℓ κ} {A : Type ℓ} where
  -- Every element of a list has a property.
  abbrev pub All : (P : A → Type κ) (elements : List A) → Type κ
  All P (first ∷ rest) = P first × All P rest
  All P [] = Unit

  pub All-append :
      (P : A → Type κ) (us vs : List A) (p : All P us) (q : All P vs) → All P (us ++ vs)
  All-append P (u ∷ us) vs p q = (p.0, All-append P us vs p.1 q)
  All-append P [] vs p q = q

  pub All-mem : (P : A → Type κ) {a : A} {xs : List A} → All P xs → Memᴰ a xs → P a
  All-mem P h (Memᴰ.head e) = subst P (sym e) h.0
  All-mem P h (Memᴰ.tail m) = All-mem P h.1 m

module _ {ℓ} {A : Type ℓ} where
  pub all-All : (p : A → Bool) (xs : List A) → all p xs ≡ true → All (λ x. p x ≡ true) xs
  all-All p [] h = tt
  all-All p (x ∷ xs) h = (ground arith, all-All p xs (ground arith))

  pub All-all : (p : A → Bool) (xs : List A) → All (λ x. p x ≡ true) xs → all p xs ≡ true
  All-all p [] h = refl
  All-all p (x ∷ xs) h = rw h.0 (All-all p xs h.1)

  pub keep-All : (p : A → Bool) (xs : List A) → All (λ x. p x ≡ true) (keep p xs)
  keep-All p [] = tt
  keep-All p (x ∷ xs) = elim (Bool-cases (p x)) [
    | inl h ↦ rw h (h, keep-All p xs)
    | inr h ↦ rw h (keep-All p xs)
  ]

  pub keep-eq_self : (p : A → Bool) (xs : List A) → All (λ x. p x ≡ true) xs → keep p xs ≡ xs
  keep-eq_self p [] h = refl
  keep-eq_self p (x ∷ xs) h = rw (h.0) (ap (λ (t : List A). x ∷ t) (keep-eq_self p xs h.1))

  pub mem-keep : (p : A → Bool) {a : A} {xs : List A} → Memᴰ a xs → p a ≡ true → Memᴰ a (keep p xs)
  mem-keep p {xs = []} m h = elim m [ ]
  mem-keep p {a} {xs = x ∷ xs} (Memᴰ.head e) h =
      let px : p x ≡ true = subst (λ (t : A). p t ≡ true) e h in rw px (Memᴰ.head e)
  mem-keep p {xs = x ∷ xs} (Memᴰ.tail m) h = elim (Bool-cases (p x)) [
    | inl y ↦ rw y (Memᴰ.tail (mem-keep p m h))
    | inr n ↦ rw n (mem-keep p m h)
  ]

  pub mem_of_keep :
      (p : A → Bool) {a : A} (xs : List A) → Memᴰ a (keep p xs) → Memᴰ a xs × (p a ≡ true)
  mem_of_keep p [] m = elim m [ ]
  mem_of_keep p {a} (x ∷ xs) m = elim (Bool-cases (p x)) [
    | inl y ↦
        let n : Memᴰ a (x ∷ keep p xs) = rw y at m in
        elim n [
          | Memᴰ.head e ↦ (Memᴰ.head e, ap p e ∙ y)
          | Memᴰ.tail n ↦ let (k, q) = mem_of_keep p xs n in (Memᴰ.tail k, q)
        ]
    | inr n ↦ let (k, q) = mem_of_keep p xs (rw n at m) in (Memᴰ.tail k, q)
  ]

  pub any-false : (p : A → Bool) {a : A} {xs : List A} → any p xs ≡ false → Memᴰ a xs → p a ≡ false
  any-false p {xs = []} h m = elim m [ ]
  any-false p {a} {xs = x ∷ xs} h (Memᴰ.head e) = ground (arith, ap p e)
  any-false p {xs = x ∷ xs} h (Memᴰ.tail m) = any-false p {xs = xs} (ground arith) m

  pub mem_of_any :
      (p : A → Bool) (xs : List A) → any p xs ≡ true → (a : A) × Memᴰ a xs × (p a ≡ true)
  mem_of_any p [] h = cc
  mem_of_any p (x ∷ xs) h = elim (Bool-cases (p x)) [
    | inl y ↦ (x, Memᴰ.head refl, y)
    | inr n ↦ let (a, m, y) = mem_of_any p xs (ground arith) in (a, Memᴰ.tail m, y)
  ]

  pub any_of_mem : (p : A → Bool) {a : A} (xs : List A) → Memᴰ a xs → p a ≡ true → any p xs ≡ true
  any_of_mem p [] m h = elim m [ ]
  any_of_mem p (x ∷ xs) (Memᴰ.head e) h = ground (arith, ap p e)
  any_of_mem p (x ∷ xs) (Memᴰ.tail m) h = ground (arith, any_of_mem p xs m h)

  pub any_of_none :
      (p : A → Bool) (xs : List A) → ((a : A) → Memᴰ a xs → p a ≡ false) → any p xs ≡ false
  any_of_none p [] h = refl
  any_of_none p (x ∷ xs) h = rw (h x (Memᴰ.head refl)) (any_of_none p xs (λ a m. h a (Memᴰ.tail m)))

  pub mem-append_left : {a : A} {xs : List A} (ys : List A) → Memᴰ a xs → Memᴰ a (xs ++ ys)
  mem-append_left {xs = []} ys m = elim m [ ]
  mem-append_left {xs = x ∷ xs} ys (Memᴰ.head e) = Memᴰ.head e
  mem-append_left {xs = x ∷ xs} ys (Memᴰ.tail m) = Memᴰ.tail (mem-append_left ys m)

  pub mem-append_cases :
      {a : A} (xs : List A) {ys : List A} → Memᴰ a (xs ++ ys) → Memᴰ a xs ⊎ Memᴰ a ys
  mem-append_cases [] m = inr m
  mem-append_cases (x ∷ xs) (Memᴰ.head e) = inl (Memᴰ.head e)
  mem-append_cases (x ∷ xs) (Memᴰ.tail m) = elim (mem-append_cases xs m) [
    | inl n ↦ inl (Memᴰ.tail n)
    | inr n ↦ inr n
  ]

  pub mem-append_right : {a : A} (xs : List A) {ys : List A} → Memᴰ a ys → Memᴰ a (xs ++ ys)
  mem-append_right [] m = m
  mem-append_right (x ∷ xs) m = Memᴰ.tail (mem-append_right xs m)

module _ {ℓ κ} {A : Type ℓ} {B : Type κ} where
  -- The results that are there, in order.
  abbrev pub keep_some : (A → Option B) → List A → List B
  keep_some f [] = []
  keep_some f (x ∷ xs) = add_some (f x) (keep_some f xs)

module _ {ℓ κ} {A : Type ℓ} {B : Type κ} (f : A → Option B) where
  pub mem-keep_some :
      {a : A} {b : B} (xs : List A) → Memᴰ a xs → f a ≡ some b → Memᴰ b (keep_some f xs)
  mem-keep_some [] m e = elim m [ ]
  mem-keep_some {a} {b} (x ∷ xs) (Memᴰ.head p) e =
      rw (ap (λ (t : A). f t) (sym p) ∙ e) (Memᴰ.head refl)
  mem-keep_some (x ∷ xs) (Memᴰ.tail m) e = elim (Option-cases (f x)) [
    | inl n ↦ rw n (mem-keep_some xs m e)
    | inr (c, y) ↦ rw y (Memᴰ.tail (mem-keep_some xs m e))
  ]

  pub mem_of_keep_some :
      {b : B} (xs : List A) → Memᴰ b (keep_some f xs) → (a : A) × Memᴰ a xs × (f a ≡ some b)
  mem_of_keep_some [] m = elim m [ ]
  mem_of_keep_some {b} (x ∷ xs) m = go (f x) refl m (mem_of_keep_some xs)
    where
      go :
          (o : Option B)
          → f x ≡ o
          → Memᴰ b (add_some o (keep_some f xs))
          → (Memᴰ b (keep_some f xs) → (a : A) × Memᴰ a xs × (f a ≡ some b))
          → (a : A) × Memᴰ a (x ∷ xs) × (f a ≡ some b)
      go none e n ih = let (a, k, y) = ih n in (a, Memᴰ.tail k, y)
      go (some c) e (Memᴰ.head p) ih = (x, Memᴰ.head refl, e ∙ ap (λ (t : B). some t) (sym p))
      go (some c) e (Memᴰ.tail n) ih = let (a, k, y) = ih n in (a, Memᴰ.tail k, y)

module _ {ℓ κ} {A : Type ℓ} {B : Type κ} where
  pub any-map : (p : B → Bool) (f : A → B) (xs : List A) → any p (map f xs) ≡ any (λ x. p (f x)) xs
  any-map p f [] = refl
  any-map p f (x ∷ xs) = ap (λ (b : Bool). p (f x) || b) (any-map p f xs)

module _ {ℓ κ} {A : Type ℓ} {B : Type κ} (f : A → B) where
  pub mem-map : {x : A} (xs : List A) → Memᴰ x xs → Memᴰ (f x) (map f xs)
  mem-map [] m = elim m [ ]
  mem-map (y ∷ xs) (Memᴰ.head e) = Memᴰ.head (ap f e)
  mem-map (y ∷ xs) (Memᴰ.tail m) = Memᴰ.tail (mem-map xs m)

  pub mem_of_map : {b : B} (xs : List A) → Memᴰ b (map f xs) → (a : A) × Memᴰ a xs × (b ≡ f a)
  mem_of_map [] m = elim m [ ]
  mem_of_map (x ∷ xs) (Memᴰ.head e) = (x, Memᴰ.head refl, e)
  mem_of_map (x ∷ xs) (Memᴰ.tail m) = let (a, k, e) = mem_of_map xs m in (a, Memᴰ.tail k, e)

module _ {ℓ} {A : Type ℓ} where
  pub All-of_mem {μ} : (P : A → Type μ) (xs : List A) → ((a : A) → Memᴰ a xs → P a) → All P xs
  All-of_mem P [] h = tt
  All-of_mem P (x ∷ xs) h = (h x (Memᴰ.head refl), All-of_mem P xs (λ a m. h a (Memᴰ.tail m)))

-- `slices.Contains`.
module _ {ℓ} {A : Type ℓ} ⦃e : Eq A⦄ where
  abbrev pub contains : List A → A → Bool
  contains xs a = any (λ x. x == a) xs

module _ {ℓ} {A : Type ℓ} where
  -- The last element that passes a test.
  pub last_passing :
      (p : A → Bool) (xs : List A)
      → any p xs ≡ true
      → (before : List A) × (a : A) × (after : List A) × (xs ≡ before ++ a ∷ after)
        × (p a ≡ true)
        × (any p after ≡ false)
  last_passing p [] h = cc h
  last_passing p (x ∷ xs) h = elim (Bool-cases (any p xs)) [
    | inl y ↦
        let (before, a, after, e, q, n) = last_passing p xs y in
        (x ∷ before, a, after, ap (λ (l : List A). x ∷ l) e, q, n)
    | inr n ↦ ([], x, xs, refl, ground arith, n)
  ]
