-- ===== src/Tests/ExampleDns.antt =====
-- A DNS library in small that keeps the laws: a canonical name ends in a dot, each label ends in
-- one, and a sub domain's labels end in those of its parent.
use external_dns_iij_dpf_web.Base.{
  Bool-cases, List, [], ap, contains, eq_list, eq_ℕ, false, if◌then◌else◌, inl, inr, length, nat_eq,
  nat_eq_iff, not, refl, reverse, subst, sym, ℕ, ◌++◌, ◌∙◌, ◌∷◌, ◌≡◌, ◌≢◌, ◌⊎◌,
}
use external_dns_iij_dpf_web.Base.Int.{eq_ℤ}
use external_dns_iij_dpf_web.Base.Text.{Text, is_space, trim_left, trim_space}
use external_dns_iij_dpf_web.Dnsname.Laws.{DnsLaws}
use external_dns_iij_dpf_web.Dnsname.Name.{Dns, eq_name}
use external_dns_iij_dpf_web.Dnsname.Suffix.{is_suffix}
use external_dns_iij_dpf_web.Dpf.Rrtype.{eq_rrtype}
use external_dns_iij_dpf_web.Dpf.Wire.{eq_merge_key}
use mathlib.Core.List.{reverse-append, reverse-cons, reverse-reverse}
use mathlib.Core.Path.{ap₂}

abbrev dot : ℕ
dot = 46

unfoldable pub with_dot : Text → Text
with_dot [] = dot ∷ []
with_dot (c ∷ s) = if nat_eq c dot then c ∷ s else dot ∷ c ∷ s

unfoldable pub dotted : Text → Text
unfolding with_dot
dotted s = reverse (with_dot (reverse s))

abbrev on_head : ℕ → List Text → List Text
on_head c [] = []
on_head c (l ∷ ls) = (c ∷ l) ∷ ls

unfoldable pub dot_split : Text → List Text
dot_split [] = []
dot_split (c ∷ s) = let rest = dot_split s in if nat_eq c dot then [] ∷ rest else on_head c rest

abbrev pub example_dns : Dns
example_dns = record {
  canonical_name = dotted;
  is_domain_name = λ s. not (contains s 0x20);
  split_domain_name = dot_split;
  count_label = λ s. length (dot_split s);
  is_sub_domain = λ s t. is_suffix (dot_split s) (dot_split t);
}

with_dot-head : (s : Text) → (v : Text) × (with_dot s ≡ dot ∷ v)
unfolding with_dot
with_dot-head [] = ([], refl)
with_dot-head (c ∷ s) = elim (Bool-cases (nat_eq c dot)) [
  | inl y ↦ (s, rw y (ap (λ (x : ℕ). x ∷ s) ((nat_eq_iff c dot).0 y)))
  | inr n ↦ (c ∷ s, rw n refl)
]

with_dot-dot : (v : Text) → with_dot (dot ∷ v) ≡ dot ∷ v
unfolding with_dot
with_dot-dot v = refl

dotted_last : (s : Text) → (v : Text) × (dotted s ≡ v ++ dot ∷ [])
unfolding dotted
dotted_last s = let (v, e) = with_dot-head (reverse s) in (reverse v, rw e (reverse-cons dot v))

dotted_idem : (s : Text) → dotted (dotted s) ≡ dotted s
unfolding dotted
dotted_idem s =
    let (v, e) = with_dot-head (reverse s) in
    rw (reverse-reverse (with_dot (reverse s)), e) (ap (λ (t : Text). reverse t) (with_dot-dot v))

on_head-ne-nil : (c : ℕ) (ls : List Text) → ls ≢ [] → on_head c ls ≢ []
on_head-ne-nil c [] h = h
on_head-ne-nil c (l ∷ ls) h = λ e. cc e

dot_split-ne-nil : (s : Text) → dot_split (s ++ dot ∷ []) ≢ []
unfolding dot_split
dot_split-ne-nil [] = λ e. cc e
dot_split-ne-nil (c ∷ s) = elim (Bool-cases (nat_eq c dot)) [
  | inl y ↦ rw y (λ e. cc e)
  | inr n ↦ rw n (on_head-ne-nil c (dot_split (s ++ dot ∷ [])) (dot_split-ne-nil s))
]

abbrev unsplit : List Text → Text
unsplit [] = []
unsplit (l ∷ ls) = l ++ dot ∷ unsplit ls

unsplit-on_head : (c : ℕ) (ls : List Text) → ls ≢ [] → unsplit (on_head c ls) ≡ c ∷ unsplit ls
unsplit-on_head c [] h = absurd (h refl)
unsplit-on_head c (l ∷ ls) h = refl

unsplit-dot_split : (s : Text) → unsplit (dot_split (s ++ dot ∷ [])) ≡ s ++ dot ∷ []
unfolding dot_split
unsplit-dot_split [] = refl
unsplit-dot_split (c ∷ s) = elim (Bool-cases (nat_eq c dot)) [
  | inl y ↦
      rw y (ap₂ (λ (x : ℕ) (t : Text). x ∷ t) (sym ((nat_eq_iff c dot).0 y)) (unsplit-dot_split s))
  | inr n ↦ rw n (
      unsplit-on_head c (dot_split (s ++ dot ∷ [])) (dot_split-ne-nil s)
      ∙ ap (λ (t : Text). c ∷ t) (unsplit-dot_split s))
]

unsplit-dotted : (s : Text) → unsplit (dot_split (dotted s)) ≡ dotted s
unsplit-dotted s = let (v, e) = dotted_last s in rw e (unsplit-dot_split v)

trim_left-cases :
    (s : Text)
    → (trim_left s ≡ []) ⊎ ((c : ℕ) × (v : Text) × (trim_left s ≡ c ∷ v) × (is_space c ≡ false))
unfolding trim_left
trim_left-cases [] = inl refl
trim_left-cases (c ∷ s) = elim (Bool-cases (is_space c)) [
  | inl y ↦ rw y (trim_left-cases s)
  | inr n ↦ rw n (inr (c, s, refl, n))
]

trim_left-last :
    (s : Text) (c : ℕ) → is_space c ≡ false → (v : Text) × (trim_left (s ++ c ∷ []) ≡ v ++ c ∷ [])
unfolding trim_left
trim_left-last [] c h = ([], rw h refl)
trim_left-last (x ∷ s) c h = elim (Bool-cases (is_space x)) [
  | inl y ↦ let (v, e) = trim_left-last s c h in (v, rw y e)
  | inr n ↦ (x ∷ s, rw n refl)
]

with_dot-last : (v : Text) (c : ℕ) → (w : Text) × (with_dot (v ++ c ∷ []) ≡ w ++ c ∷ [])
unfolding with_dot
with_dot-last [] c = elim (Bool-cases (nat_eq c dot)) [
  | inl y ↦ ([], rw y refl)
  | inr n ↦ (dot ∷ [], rw n refl)
]
with_dot-last (x ∷ v) c = elim (Bool-cases (nat_eq x dot)) [
  | inl y ↦ (x ∷ v, rw y refl)
  | inr n ↦ (dot ∷ x ∷ v, rw n refl)
]

trim_left_fixed : (c : ℕ) (v : Text) → is_space c ≡ false → trim_left (c ∷ v) ≡ c ∷ v
unfolding trim_left
trim_left_fixed c v h = rw h refl

append_cons-ne-nil : (v : Text) (c : ℕ) → (v ++ c ∷ []) ≢ []
append_cons-ne-nil [] c = λ e. cc e
append_cons-ne-nil (x ∷ v) c = λ e. cc e

-- A text that begins and ends in no white space, given backwards, is trimmed.
trimmed_backwards :
    (q v w : Text) (c : ℕ)
    → q ≡ v ++ c ∷ []
    → q ≡ dot ∷ w
    → is_space c ≡ false
    → trim_space (reverse q) ≡ reverse q
unfolding trim_space
trimmed_backwards q v w c e f h =
    let front : reverse q ≡ c ∷ reverse v =
      ap (λ (t : Text). reverse t) e ∙ reverse-append v (c ∷ []) in
    let left : trim_left (reverse q) ≡ reverse q =
      ap (λ (t : Text). trim_left t) front ∙ trim_left_fixed c (reverse v) h ∙ sym front in
    let right : trim_left q ≡ q =
      ap (λ (t : Text). trim_left t) f ∙ trim_left_fixed dot w refl ∙ sym f in
    ap (λ (t : Text). reverse (trim_left (reverse t))) left
    ∙ ap (λ (t : Text). reverse (trim_left t)) (reverse-reverse q)
    ∙ ap (λ (t : Text). reverse t) right

dotted-trim_space :
    (s : Text) → dotted (trim_space s) ≡ reverse (with_dot (trim_left (reverse (trim_left s))))
unfolding trim_space dotted
dotted-trim_space s =
    ap (λ (t : Text). reverse (with_dot t)) (reverse-reverse (trim_left (reverse (trim_left s))))

dotted_trimmed : (s : Text) → trim_space (dotted (trim_space s)) ≡ dotted (trim_space s)
dotted_trimmed s = elim (trim_left-cases s) [
  | inl e ↦
      subst (λ (t : Text). trim_space t ≡ t)
        (sym
          (dotted-trim_space s ∙ ap (λ (t : Text). reverse (with_dot (trim_left (reverse t)))) e))
        (unfold trim_space trim_left with_dot in refl)
  | inr (c, v, e, n) ↦
      let (w, f) = trim_left-last (reverse v) c n in
      let (x, g) = with_dot-last w c in
      let last : with_dot (trim_left (reverse (trim_left s))) ≡ x ++ c ∷ [] =
        ap (λ (t : Text). with_dot (trim_left (reverse t))) e
        ∙ ap (λ (t : Text). with_dot (trim_left t)) (reverse-cons c v)
        ∙ ap (λ (t : Text). with_dot t) f
        ∙ g in
      let (y, k) = with_dot-head (trim_left (reverse (trim_left s))) in
      subst (λ (t : Text). trim_space t ≡ t) (sym (dotted-trim_space s))
        (trimmed_backwards (with_dot (trim_left (reverse (trim_left s)))) x y c last k n)
]

pub example_dns-DnsLaws : DnsLaws example_dns
example_dns-DnsLaws = record {
  canonical-ne-nil = λ s e. let (v, f) = dotted_last s in append_cons-ne-nil v dot (sym f ∙ e);
  canonical_idem = dotted_idem;
  canonical_trimmed = dotted_trimmed;
  count_label_lem = λ s. refl;
  is_sub_domain_lem = λ s t. refl;
  split_injective =
      λ s t e. sym (unsplit-dotted s) ∙ ap (λ (ls : List Text). unsplit ls) e ∙ unsplit-dotted t;
}
