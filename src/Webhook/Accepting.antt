-- ===== src/Webhook/Accepting.antt =====
-- Lemmas on `acceptable` of internal/webhook/negotiation.go, for headers of several parts.
use external_dns_iij_dpf_web.Base.{
  Bool, Bool-cases, List, [], all, ap, false, inl, inr, is_empty, nat_eq, refl, true, ◌&&◌, ◌++◌,
  ◌||◌, ◌∙◌, ◌∷◌, ◌≡◌, ◌≢◌,
}
use external_dns_iij_dpf_web.Base.Space.{all_space-append, trim_space-is_empty}
use external_dns_iij_dpf_web.Base.Text.{Text, is_space, trim_space}
use external_dns_iij_dpf_web.Webhook.Negotiation.{
  ParseMedia, acceptable, any_fits, comma, entry_fits, on_first, split_commas,
}

split_commas-ne-nil : (s : Text) → split_commas s ≢ []
unfolding split_commas
split_commas-ne-nil [] = λ e. cc e
split_commas-ne-nil (c ∷ s) = elim (Bool-cases (nat_eq c comma)) [
  | inl y ↦ rw y (λ e. cc e)
  | inr n ↦ rw n (on_first-ne-nil (split_commas s))
]
  where
    on_first-ne-nil : (ss : List Text) → on_first c ss ≢ []
    on_first-ne-nil [] = λ e. cc e
    on_first-ne-nil (x ∷ ss) = λ e. cc e

split_commas-append :
    (s t : Text) → split_commas (s ++ comma ∷ t) ≡ split_commas s ++ split_commas t
unfolding split_commas
split_commas-append [] t = refl
split_commas-append (c ∷ s) t = elim (Bool-cases (nat_eq c comma)) [
  | inl y ↦ rw y (ap (λ (ss : List Text). [] ∷ ss) (split_commas-append s t))
  | inr n ↦ rw n (
      ap (λ (ss : List Text). on_first c ss) (split_commas-append s t)
      ∙ on_first-append (split_commas s) (split_commas t) (split_commas-ne-nil s))
]
  where
    on_first-append : (xs ys : List Text) → xs ≢ [] → on_first c (xs ++ ys) ≡ on_first c xs ++ ys
    on_first-append [] ys h = absurd (h refl)
    on_first-append (x ∷ xs) ys h = refl

any_fits-append :
    (m : ParseMedia) (xs ys : List Text) → any_fits m (xs ++ ys) ≡ (any_fits m xs || any_fits m ys)
unfolding any_fits
any_fits-append m [] ys = refl
any_fits-append m (x ∷ xs) ys = elim (Bool-cases (entry_fits m x)) [
  | inl y ↦ rw y refl
  | inr n ↦ rw n (any_fits-append m xs ys)
]

and_false : (b : Bool) → (b && false) ≡ false
and_false true = refl
and_false false = refl

-- A header of two parts, neither of them blank, is acceptable exactly if one of the parts is: an
-- entry that fits is found wherever it stands, and one that does not spoils nothing.
acceptable-append :
    (m : ParseMedia) (s t : Text)
    → is_empty (trim_space s) ≡ false
    → is_empty (trim_space t) ≡ false
    → acceptable m (s ++ comma ∷ t) ≡ (acceptable m s || acceptable m t)
unfolding acceptable
acceptable-append m s t hs ht =
    let blank : is_empty (trim_space (s ++ comma ∷ t)) ≡ false =
      trim_space-is_empty (s ++ comma ∷ t)
      ∙ all_space-append s (comma ∷ t)
      ∙ and_false (all is_space s) in
    rw (hs, ht, blank)
      (ap (λ (l : List Text). any_fits m l) (split_commas-append s t)
        ∙ any_fits-append m (split_commas s) (split_commas t))
