-- ===== src/Provider/Alone.antt =====
-- Lemmas on `validateCNAMEExclusivity` of internal/provider/validate.go: when it succeeds.
use external_dns_iij_dpf_web.Base.{
  ==_iff, ==_refl, AllEntries-all, AllEntries-imp, Bool, Bool-cases, List, [], all, all-AllEntries,
  ap, arith, contains, eq_list, eq_ℕ, false, inl, inr, leb, length, lookup, lookup-AllEntries, refl,
  some_inj, subst, sym, true, ◌==◌, ◌↔◌, ◌∙◌, ◌∷◌, ◌≡◌, ◌⊎◌,
}
use external_dns_iij_dpf_web.Base.Int.{eq_ℤ}
use external_dns_iij_dpf_web.Dnsname.Name.{Name, eq_name}
use external_dns_iij_dpf_web.Errors.{ok}
use external_dns_iij_dpf_web.Provider.Exclusive.{
  Holds, Holds-more, IsTypes, IsTypes-add_type, NoDup, Plus,
}
use external_dns_iij_dpf_web.Provider.Types.{
  ChangeSet, Record, RecordType, added_records, type_cname,
}
use external_dns_iij_dpf_web.Provider.Validate.{
  add_type, added_types, check, exclusive, permanent, validate_cname_exclusivity,
}
use mathlib.Core.List.{Memᴰ}

abbrev Among : (Record → Type 0) → List Record → Record → Type 0
Among Seen rs x = Seen x ⊎ Memᴰ x rs

IsTypes-more :
    (P Q : Record → Type 0) (m : List (Name × List RecordType))
    → ((x : Record) → P x → Q x)
    → ((x : Record) → Q x → P x)
    → IsTypes P m
    → IsTypes Q m
IsTypes-more P Q m f g h =
    (AllEntries-imp (Holds P) (Holds Q) m (Holds-more P Q f) h.0, λ x q. h.1 x (g x q))

IsTypes-added_types :
    (Seen : Record → Type 0) (m : List (Name × List RecordType)) (rs : List Record)
    → IsTypes Seen m
    → IsTypes (Among Seen rs) (added_types m rs)
unfolding added_types
IsTypes-added_types Seen m [] h =
    IsTypes-more Seen (Among Seen []) m (λ x s. inl s)
      (λ x. elim [ inl s ↦ s | inr k ↦ elim k [ ] ]) h
IsTypes-added_types Seen m (r ∷ rs) h =
    IsTypes-more (Among (Plus Seen r) rs) (Among Seen (r ∷ rs)) (added_types (add_type m r) rs)
      (λ x. elim [
        | inl (inl s) ↦ inl s
        | inl (inr e) ↦ inr (Memᴰ.head e)
        | inr k ↦ inr (Memᴰ.tail k)
      ])
      (λ x. elim [
        | inl s ↦ inl (inl s)
        | inr (Memᴰ.head e) ↦ inl (inr e)
        | inr (Memᴰ.tail k) ↦ inr k
      ])
      (IsTypes-added_types (Plus Seen r) (add_type m r) rs (IsTypes-add_type Seen m r h))

types_of_added : (rs : List Record) → IsTypes (λ x. Memᴰ x rs) (added_types [] rs)
types_of_added rs =
    IsTypes-more (Among (λ x. ⊥) rs) (λ x. Memᴰ x rs) (added_types [] rs)
      (λ x. elim [ inl s ↦ absurd s | inr k ↦ k ]) (λ x k. inr k)
      (IsTypes-added_types (λ x. ⊥) [] rs (tt, λ x s. absurd s))

-- At most one type: any two of the list are one.
single :
    (ts : List RecordType) (a b : RecordType)
    → leb (length ts) 1 ≡ true
    → contains ts a ≡ true
    → contains ts b ≡ true
    → a ≡ b
single [] a b l h k = cc h
single (t ∷ []) a b l h k =
    let p : t ≡ a = (==_iff t a).0 (ground arith) in
    let q : t ≡ b = (==_iff t b).0 (ground arith) in sym p ∙ q
single (t ∷ u ∷ ts) a b l h k = absurd (ground arith)

NoDup-single :
    (ts : List RecordType) (c : RecordType)
    → NoDup ts
    → ((t : RecordType) → contains ts t ≡ true → t ≡ c)
    → leb (length ts) 1 ≡ true
NoDup-single [] c d h = refl
NoDup-single (t ∷ []) c d h = refl
NoDup-single (t ∷ u ∷ ts) c d h =
    let p : t ≡ c = h t (rw (==_refl t) refl) in
    let q : u ≡ c =
      h u (elim (Bool-cases (t == u)) [ inl y ↦ rw y refl | inr n ↦ rw (n, ==_refl u) refl ]) in
    let differ : (u == t) ≡ false = ground (arith, d.0) in cc (differ, (==_iff u t).1 (q ∙ sym p))

-- Records of one name, one of which is a CNAME, are all CNAMEs.
abbrev pub IsAlone : List Record → Type 0
IsAlone rs =
    (r q : Record)
    → Memᴰ r rs
    → Memᴰ q rs
    → r.name ≡ q.name
    → r.rtype ≡ type_cname
    → q.rtype ≡ type_cname

-- The check succeeds exactly if, among the records that the change set creates or updates, a name
-- with a CNAME has CNAMEs only.
pub validate_cname_exclusivity_iff :
    (cs : ChangeSet) → (validate_cname_exclusivity cs ≡ ok tt) ↔ IsAlone (added_records cs)
unfolding validate_cname_exclusivity
validate_cname_exclusivity_iff cs = (
  λ h. alone (passes _ h),
  λ h.
      rw
        (AllEntries-all exclusive m (
          AllEntries-imp (Holds (λ x. Memᴰ x rs)) (λ n ts. exclusive (n, ts) ≡ true) m (one h)
            (types_of_added rs).0))
        refl,
)
  where
    rs : List Record
    rs = added_records cs

    m : List (Name × List RecordType)
    m = added_types [] rs

    passes : (b : Bool) → check b permanent ≡ ok tt → b ≡ true
    passes true h = refl
    passes false h = cc h

    alone : all exclusive m ≡ true → IsAlone rs
    alone h r q k l same c =
        let (ts, x, y) = (types_of_added rs).1 r k in
        let (us, z, w) = (types_of_added rs).1 q l in
        let equal : ts ≡ us = some_inj (sym x ∙ ap (λ (n : Name). lookup n m) same ∙ z) in
        let fits : exclusive (r.name, ts) ≡ true =
          lookup-AllEntries (λ n vs. exclusive (n, vs) ≡ true) m (all-AllEntries exclusive m h) x in
        let has : contains ts type_cname ≡ true =
          ap (λ (t : RecordType). contains ts t) (sym c) ∙ y in
        single ts q.rtype type_cname (rw has at fits)
          (subst (λ (vs : List RecordType). contains vs q.rtype ≡ true) (sym equal) w) has

    one :
        IsAlone rs
        → (n : Name) (ts : List RecordType) → Holds (λ x. Memᴰ x rs) n ts
        → exclusive (n, ts) ≡ true
    one h n ts k = elim (Bool-cases (contains ts type_cname)) [
      | inr e ↦ rw e refl
      | inl y ↦
          let (r, m, named, typed) = k.1 type_cname y in
          rw y (
            NoDup-single ts type_cname k.0 (λ t c.
              let (q, l, called, kind) = k.1 t c in
              sym kind ∙ h r q m l (named ∙ sym called) typed))
    ]
