-- ===== src/Base/Space.antt =====
-- White space at the ends of a text: lemmas on `trim_space`.
use Prim.Native.Nat.{ℕ}
use mathlib.Core.Path.{◌≡◌, refl, ap, ◌∙◌}
use mathlib.Core.Logic.{inl, inr}
use mathlib.Core.Bool.{Bool, false, ◌&&◌}
use mathlib.Core.List.{[], ◌∷◌, ◌++◌, reverse, reverse-cons}
use native.Mathlib.Omega.{arith}
use external_dns_iij_dpf_web.Base.Tests.{Bool-cases}
use external_dns_iij_dpf_web.Base.Lists.{all, is_empty}
use external_dns_iij_dpf_web.Base.Text.{Text, is_space, trim_left, trim_space}

trim_left-is_empty : (s : Text) → is_empty (trim_left s) ≡ all is_space s
unfolding trim_left
trim_left-is_empty [] = refl
trim_left-is_empty (c ∷ s) = elim (Bool-cases (is_space c)) [
  | inl y ↦ rw y (trim_left-is_empty s)
  | inr n ↦ rw n refl
]

all-trim_left : (s : Text) → all is_space (trim_left s) ≡ all is_space s
unfolding trim_left
all-trim_left [] = refl
all-trim_left (c ∷ s) = elim (Bool-cases (is_space c)) [
  | inl y ↦ rw y (all-trim_left s)
  | inr n ↦ rw n (rw n refl)
]

all-append : (p : ℕ → Bool) (s t : Text) → all p (s ++ t) ≡ (all p s && all p t)
all-append p [] t = refl
all-append p (c ∷ s) t = ground (arith, all-append p s t)

all-reverse : (p : ℕ → Bool) (s : Text) → all p (reverse s) ≡ all p s
all-reverse p [] = refl
all-reverse p (c ∷ s) =
    ap (λ (t : Text). all p t) (reverse-cons c s)
    ∙ all-append p (reverse s) (c ∷ [])
    ∙ ground (arith, all-reverse p s)

reverse-is_empty : (s : Text) → is_empty (reverse s) ≡ is_empty s
reverse-is_empty [] = refl
reverse-is_empty (c ∷ s) =
    ap (λ (t : Text). is_empty t) (reverse-cons c s) ∙ append-is_empty (reverse s)
  where
    append-is_empty : (t : Text) → is_empty (t ++ c ∷ []) ≡ false
    append-is_empty [] = refl
    append-is_empty (x ∷ t) = refl

-- Trimming leaves nothing exactly of what is white space throughout.
pub trim_space-is_empty : (s : Text) → is_empty (trim_space s) ≡ all is_space s
unfolding trim_space
trim_space-is_empty s =
    reverse-is_empty (trim_left (reverse (trim_left s)))
    ∙ trim_left-is_empty (reverse (trim_left s))
    ∙ all-reverse is_space (trim_left s)
    ∙ all-trim_left s

pub all_space-append : (s t : Text) → all is_space (s ++ t) ≡ (all is_space s && all is_space t)
all_space-append s t = all-append is_space s t
