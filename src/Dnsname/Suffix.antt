-- ===== src/Dnsname/Suffix.antt =====
-- Suffixes of a list of labels: what a domain is to the names below it.
use external_dns_iij_dpf_web.Base.{
  ◌≤◌, Bool, true, ◌||◌, List, [], ◌∷◌, ◌≡◌, refl, inl, inr, arith, list_eq, list_eq_iff, eq_ℕ,
  eq_list, is_empty, length, Bool-cases, ap,
}
use external_dns_iij_dpf_web.Base.Text.{Text}

abbrev pub is_suffix : List Text → List Text → Bool
is_suffix ps [] = is_empty ps
is_suffix ps (x ∷ xs) = list_eq ps (x ∷ xs) || is_suffix ps xs

pub suffix-length : (ps xs : List Text) → is_suffix ps xs ≡ true → length ps ≤ length xs
suffix-length [] [] h = omega arith
suffix-length (p ∷ ps) [] h = cc
suffix-length ps (x ∷ xs) h = elim (Bool-cases (list_eq ps (x ∷ xs))) [
  | inl y ↦ omega (arith, ap (λ (t : List Text). length t) ((list_eq_iff ps (x ∷ xs)).0 y))
  | inr n ↦ omega (arith, suffix-length ps xs (ground arith))
]

pub is_suffix_refl : (xs : List Text) → is_suffix xs xs ≡ true
is_suffix_refl [] = refl
is_suffix_refl (x ∷ xs) = ground (arith, (list_eq_iff (x ∷ xs) (x ∷ xs)).1 refl)

pub is_suffix_trans :
    (ps qs xs : List Text)
    → is_suffix ps qs ≡ true
    → is_suffix qs xs ≡ true
    → is_suffix ps xs ≡ true
is_suffix_trans ps [] [] h k = h
is_suffix_trans ps (q ∷ qs) [] h k = cc
is_suffix_trans ps qs (x ∷ xs) h k = elim (Bool-cases (list_eq qs (x ∷ xs))) [
  | inl y ↦ rw ((list_eq_iff qs (x ∷ xs)).0 y) at h
  | inr n ↦ ground (arith, is_suffix_trans ps qs xs h (ground arith))
]

-- Of two suffixes of one list, the shorter is a suffix of the longer.
pub is_suffix_total :
    (ps qs xs : List Text)
    → is_suffix ps xs ≡ true
    → is_suffix qs xs ≡ true
    → length ps ≤ length qs
    → is_suffix ps qs ≡ true
is_suffix_total [] [] [] h k l = refl
is_suffix_total (p ∷ ps) qs [] h k l = cc
is_suffix_total [] (q ∷ qs) [] h k l = cc
is_suffix_total ps qs (x ∷ xs) h k l = elim (Bool-cases (list_eq qs (x ∷ xs))) [
  | inl y ↦ rw ((list_eq_iff qs (x ∷ xs)).0 y) h
  | inr n ↦ elim (Bool-cases (list_eq ps (x ∷ xs))) [
    | inl z ↦ absurd (
        omega (
          arith,
          ap (λ (t : List Text). length t) ((list_eq_iff ps (x ∷ xs)).0 z),
          suffix-length qs xs (ground arith),
        ))
    | inr m ↦ is_suffix_total ps qs xs (ground arith) (ground arith) l
  ]
]

pub is_suffix_antisymm :
    (ps qs : List Text) → is_suffix ps qs ≡ true → length qs ≤ length ps → ps ≡ qs
is_suffix_antisymm [] [] h l = refl
is_suffix_antisymm (p ∷ ps) [] h l = cc
is_suffix_antisymm ps (q ∷ qs) h l = elim (Bool-cases (list_eq ps (q ∷ qs))) [
  | inl y ↦ (list_eq_iff ps (q ∷ qs)).0 y
  | inr n ↦ absurd (omega (arith, suffix-length ps qs (ground arith)))
]
