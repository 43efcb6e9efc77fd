-- ===== src/Dnsname/Laws.antt =====
-- The order of names: what miekg/dns documents of its operations, and containment under it.
use external_dns_iij_dpf_web.Base.{
  Bool-cases, List, [], ap, arith, false, inl, inr, leb, length, refl, sym, true, ◌||◌, ◌∙◌, ◌≡◌,
  ◌≢◌, ◌≤◌,
}
use external_dns_iij_dpf_web.Base.Text.{Text, trim_space}
use external_dns_iij_dpf_web.Dnsname.Name.{Dns, Name, count_labels, is_zero, parse}
use external_dns_iij_dpf_web.Dnsname.Scope.{contains_name}
use external_dns_iij_dpf_web.Dnsname.Suffix.{
  is_suffix, is_suffix_antisymm, is_suffix_refl, is_suffix_total, is_suffix_trans,
}
use external_dns_iij_dpf_web.Errors.{ok}

-- `CanonicalName` gives a fully qualified name in lower case, and changes such a name no more; it
-- adds no white space at the ends. Of canonical names: `CountLabel` counts what `SplitDomainName`
-- lists, `IsSubDomain` compares the labels from the right, and the labels determine the name.
pub record DnsLaws (d : Dns) : Type 0 where
  pub canonical-ne-nil : (s : Text) → d.canonical_name s ≢ []
  pub canonical_idem : (s : Text) → d.canonical_name (d.canonical_name s) ≡ d.canonical_name s
  pub canonical_trimmed :
      (s : Text) → trim_space (d.canonical_name (trim_space s)) ≡ d.canonical_name (trim_space s)
  pub count_label_lem :
      (s : Text)
      → d.count_label (d.canonical_name s) ≡ length (d.split_domain_name (d.canonical_name s))
  pub is_sub_domain_lem :
      (s t : Text)
      → d.is_sub_domain (d.canonical_name s) (d.canonical_name t)
        ≡ is_suffix
            (d.split_domain_name (d.canonical_name s))
            (d.split_domain_name (d.canonical_name t))
  pub split_injective :
      (s t : Text)
      → d.split_domain_name (d.canonical_name s) ≡ d.split_domain_name (d.canonical_name t)
      → d.canonical_name s ≡ d.canonical_name t

-- The invariant that only `Parse` makes names for.
abbrev pub IsCanonical : Dns → Name → Type 0
IsCanonical d n = d.canonical_name n.canonical ≡ n.canonical

module _ {d : Dns} (laws : DnsLaws d) where
  pub IsCanonical-is_zero : (n : Name) → IsCanonical d n → is_zero n ≡ false
  IsCanonical-is_zero n c = elim (Bool-cases (is_zero n)) [
    | inl y ↦ absurd (laws.canonical-ne-nil n.canonical (ground arith))
    | inr e ↦ e
  ]

  abbrev parts : Name → List Text
  parts n = d.split_domain_name n.canonical

  pub count_labels-eq-length : (n : Name) → IsCanonical d n → count_labels d n ≡ length (parts n)
  unfolding count_labels
  count_labels-eq-length n c =
      rw (IsCanonical-is_zero n c) (rw c at (laws.count_label_lem n.canonical))

  pub contains_name-eq-suffix :
      (n m : Name)
      → IsCanonical d n
      → IsCanonical d m
      → contains_name d n m ≡ is_suffix (parts n) (parts m)
  unfolding contains_name
  contains_name-eq-suffix n m c k =
      rw (IsCanonical-is_zero n c, IsCanonical-is_zero m k)
        (rw (c, k) at (laws.is_sub_domain_lem n.canonical m.canonical))

  pub contains_name_refl : (n : Name) → IsCanonical d n → contains_name d n n ≡ true
  contains_name_refl n c = contains_name-eq-suffix n n c c ∙ is_suffix_refl (parts n)

  -- Of canonical names, containment is transitive.
  pub contains_name_trans :
      (a b c : Name)
      → IsCanonical d a
      → IsCanonical d b
      → IsCanonical d c
      → contains_name d a b ≡ true
      → contains_name d b c ≡ true
      → contains_name d a c ≡ true
  contains_name_trans a b c ca cb cc' h k =
      contains_name-eq-suffix a c ca cc'
      ∙ is_suffix_trans (parts a) (parts b) (parts c) (sym (contains_name-eq-suffix a b ca cb) ∙ h)
          (sym (contains_name-eq-suffix b c cb cc') ∙ k)

  -- Of two domains that contain one name, that with no more labels contains the other.
  pub contains_name_total :
      (a b c : Name)
      → IsCanonical d a
      → IsCanonical d b
      → IsCanonical d c
      → contains_name d a c ≡ true
      → contains_name d b c ≡ true
      → count_labels d a ≤ count_labels d b
      → contains_name d a b ≡ true
  contains_name_total a b c ca cb cc' h k l =
      contains_name-eq-suffix a b ca cb
      ∙ is_suffix_total (parts a) (parts b) (parts c) (sym (contains_name-eq-suffix a c ca cc') ∙ h)
          (sym (contains_name-eq-suffix b c cb cc') ∙ k)
          (omega (arith, count_labels-eq-length a ca, count_labels-eq-length b cb))

  -- Of two domains that contain one name, one contains the other.
  pub contains_name_comparable :
      (a b c : Name)
      → IsCanonical d a
      → IsCanonical d b
      → IsCanonical d c
      → contains_name d a c ≡ true
      → contains_name d b c ≡ true
      → (contains_name d a b || contains_name d b a) ≡ true
  contains_name_comparable a b c ca cb cc' h k =
      elim (Bool-cases (leb (count_labels d a) (count_labels d b))) [
        | inl y ↦ rw (contains_name_total a b c ca cb cc' h k (ground arith)) refl
        | inr n ↦
            let l : contains_name d b a ≡ true =
              contains_name_total b a c cb ca cc' k h (ground arith) in
            ground (arith, l)
      ]

  pub contains_name_antisymm :
      (a b : Name)
      → IsCanonical d a
      → IsCanonical d b
      → contains_name d a b ≡ true
      → count_labels d b ≤ count_labels d a
      → a ≡ b
  contains_name_antisymm a b ca cb h l =
      let same : parts a ≡ parts b =
        is_suffix_antisymm (parts a) (parts b) (sym (contains_name-eq-suffix a b ca cb) ∙ h)
          (omega (arith, count_labels-eq-length a ca, count_labels-eq-length b cb)) in
      let equal : d.canonical_name a.canonical ≡ d.canonical_name b.canonical =
        laws.split_injective a.canonical b.canonical (rw (ca, cb) same) in
      ap (λ (t : Text). record { canonical = t }) (sym ca ∙ equal ∙ cb)

  -- What `Parse` returns is in canonical form.
  pub parse-IsCanonical : (s : Text) (n : Name) → parse d s ≡ ok n → IsCanonical d n
  unfolding parse
  parse-IsCanonical s n h = ground (arith, laws.canonical_idem (trim_space s))

  -- The text of a parsed name parses to the same name, under the laws of the DNS library.
  parse_string : (s : Text) (n : Name) → parse d s ≡ ok n → parse d n.canonical ≡ ok n
  unfolding parse
  parse_string s n h = ground (
    arith,
    laws.canonical_idem (trim_space s),
    laws.canonical_trimmed s,
    laws.canonical-ne-nil (trim_space s),
  )
