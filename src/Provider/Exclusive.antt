-- ===== src/Provider/Exclusive.antt =====
-- Lemmas on the types that `validateCNAMEExclusivity` of internal/provider/validate.go collects
-- of each name.
use external_dns_iij_dpf_web.Base.{
  ==_iff, ==_refl, AllEntries, AllEntries-imp, AllEntries-insert, Bool-cases, List, Option, [], ap,
  contains, eq_list, eq_ℕ, false, if◌then◌else◌, inl, inr, insert, lookup, lookup-AllEntries,
  lookup-insert, lookup-insert_self, none, refl, some, some_inj, subst, sym, true, ◌==◌, ◌∙◌, ◌∷◌,
  ◌≡◌, ◌⊎◌,
}
use external_dns_iij_dpf_web.Base.Int.{eq_ℤ}
use external_dns_iij_dpf_web.Dnsname.Name.{Name, eq_name, name_eq_iff}
use external_dns_iij_dpf_web.Provider.Types.{Record, RecordType}
use external_dns_iij_dpf_web.Provider.Validate.{add_type}

abbrev pub NoDup : List RecordType → Type 0
NoDup [] = Unit
NoDup (t ∷ ts) = (contains ts t ≡ false) × NoDup ts

-- The map holds, of each name, the types of the records that were seen under it, each once.
abbrev pub Holds : (Record → Type 0) → Name → List RecordType → Type 0
Holds Seen n ts =
    NoDup ts
    × ((t : RecordType)
        → contains ts t ≡ true
        → (r : Record) × Seen r × (r.name ≡ n) × (r.rtype ≡ t))

abbrev pub Has : List (Name × List RecordType) → Record → Type 0
Has m r = (ts : List RecordType) × (lookup r.name m ≡ some ts) × (contains ts r.rtype ≡ true)

abbrev pub IsTypes : (Record → Type 0) → List (Name × List RecordType) → Type 0
IsTypes Seen m = AllEntries (Holds Seen) m × ((r : Record) → Seen r → Has m r)

abbrev pub Plus : (Record → Type 0) → Record → Record → Type 0
Plus Seen r x = Seen x ⊎ (x ≡ r)

pub Holds-more :
    (P Q : Record → Type 0)
    → ((x : Record) → P x → Q x)
    → (n : Name) (ts : List RecordType) → Holds P n ts
    → Holds Q n ts
Holds-more P Q f n ts h = (h.0, λ t c. let (r, s, a, b) = h.1 t c in (r, f r s, a, b))

contains-cons :
    (t x : RecordType) (ts : List RecordType)
    → contains (x ∷ ts) t ≡ true
    → (x ≡ t) ⊎ (contains ts t ≡ true)
contains-cons t x ts h = elim (Bool-cases (x == t)) [
  | inl y ↦ inl ((==_iff x t).0 y)
  | inr n ↦ inr (rw n at h)
]

Holds-cons :
    (Seen : Record → Type 0) (r : Record) (ts : List RecordType)
    → contains ts r.rtype ≡ false
    → Holds (Plus Seen r) r.name ts
    → Holds (Plus Seen r) r.name (r.rtype ∷ ts)
Holds-cons Seen r ts n h = (
  (n, h.0),
  λ t c. elim (contains-cons t r.rtype ts c) [ inl e ↦ (r, inr refl, refl, e) | inr k ↦ h.1 t k ],
)

contains-head : (t : RecordType) (ts : List RecordType) → contains (t ∷ ts) t ≡ true
contains-head t ts = rw (==_refl t) refl

contains-tail :
    (t x : RecordType) (ts : List RecordType) → contains ts t ≡ true → contains (x ∷ ts) t ≡ true
contains-tail t x ts h = elim (Bool-cases (x == t)) [ inl y ↦ rw y refl | inr n ↦ rw n h ]

-- An entry that holds the new record's type and what it held before.
Has-insert :
    (Seen : Record → Type 0) (m : List (Name × List RecordType)) (r : Record) (ts : List RecordType)
    → contains ts r.rtype ≡ true
    → ((us : List RecordType)
        → lookup r.name m ≡ some us
        → (t : RecordType) → contains us t ≡ true
        → contains ts t ≡ true)
    → ((x : Record) → Seen x → Has m x)
    → (x : Record) → Plus Seen r x
    → Has (insert r.name ts m) x
Has-insert Seen m r ts c f h x (inr e) =
    subst (λ (y : Record). Has (insert r.name ts m) y) (sym e)
      (ts, lookup-insert_self r.name ts m, c)
Has-insert Seen m r ts c f h x (inl s) =
    let (us, l, k) = h x s in
    elim (Bool-cases (r.name == x.name)) [
      | inl y ↦
          let same : r.name ≡ x.name = (name_eq_iff r.name x.name).0 y in
          (
            ts,
            lookup-insert r.name x.name ts m ∙ rw y refl,
            f us (ap (λ (n : Name). lookup n m) same ∙ l) x.rtype k,
          )
      | inr n ↦ (us, lookup-insert r.name x.name ts m ∙ rw n l, k)
    ]

pub IsTypes-add_type :
    (Seen : Record → Type 0) (m : List (Name × List RecordType)) (r : Record)
    → IsTypes Seen m
    → IsTypes (Plus Seen r) (add_type m r)
unfolding add_type
IsTypes-add_type Seen m r h = go (lookup r.name m) refl
  where
    old : AllEntries (Holds (Plus Seen r)) m
    old =
        AllEntries-imp (Holds Seen) (Holds (Plus Seen r)) m
          (Holds-more Seen (Plus Seen r) (λ x s. inl s)) h.0

    next : Option (List RecordType) → List (Name × List RecordType)
    next none = insert r.name (r.rtype ∷ []) m
    next (some ts) = if contains ts r.rtype then m else insert r.name (r.rtype ∷ ts) m

    go : (o : Option (List RecordType)) → lookup r.name m ≡ o → IsTypes (Plus Seen r) (next o)
    go none e = (
      AllEntries-insert (Holds (Plus Seen r)) r.name (r.rtype ∷ []) m old
          (Holds-cons Seen r [] refl (tt, λ t c. cc c)),
      Has-insert Seen m r (r.rtype ∷ []) (contains-head r.rtype []) (λ us l. cc (e, l)) h.1,
    )
    go (some ts) e = elim (Bool-cases (contains ts r.rtype)) [
      | inl y ↦ rw y (
        old,
        λ x. elim [ inl s ↦ h.1 x s | inr q ↦ subst (λ (z : Record). Has m z) (sym q) (ts, e, y) ],
      )
      | inr n ↦ rw n (
        AllEntries-insert (Holds (Plus Seen r)) r.name (r.rtype ∷ ts) m old
            (Holds-cons Seen r ts n (lookup-AllEntries (Holds (Plus Seen r)) m old e)),
        Has-insert Seen m r (r.rtype ∷ ts) (contains-head r.rtype ts)
            (λ us l t c.
              contains-tail t r.rtype ts
                (subst (λ (vs : List RecordType). contains vs t ≡ true) (some_inj (sym l ∙ e)) c))
            h.1,
      )
    ]
