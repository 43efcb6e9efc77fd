-- ===== src/Provider/Writing.antt =====
-- Lemmas on `ApplyChanges` of internal/provider/apply.go.
use external_dns_iij_dpf_web.Base.{
  Bool, Bool-cases, List, Option, [], ap, arith, false, inl, inr, is_empty, keep, keep-keep, none,
  refl, some, true, ◌||◌, ◌∷◌, ◌≡◌,
}
use external_dns_iij_dpf_web.Dnsname.Name.{Dns, Name}
use external_dns_iij_dpf_web.Dnsname.Scope.{Scope, in_scope, is_empty_scope, longest_match}
use external_dns_iij_dpf_web.Errors.{Result-cases, is_ok}
use external_dns_iij_dpf_web.Provider.Apply.{
  Part, apply_changes, apply_in_scope, creating, deleting, filter_to_scope, part_of, updating,
}
use external_dns_iij_dpf_web.Provider.Backend.{Backend}
use external_dns_iij_dpf_web.Provider.Txt.{TxtCodec}
use external_dns_iij_dpf_web.Provider.Types.{ChangeSet, Record, is_empty_changes}
use external_dns_iij_dpf_web.Provider.Validate.{validate_format}
use mathlib.Core.List.{Memᴰ}

filter_to_scope_idem :
    (d : Dns) (scope : Scope) (cs : ChangeSet)
    → filter_to_scope d scope (filter_to_scope d scope cs) ≡ filter_to_scope d scope cs
unfolding filter_to_scope
filter_to_scope_idem d scope cs =
    let p : Record → Bool = λ r. in_scope d scope r.name in
    rw (keep-keep p cs.create, keep-keep p cs.update_to, keep-keep p cs.remove) refl

keep-is_empty : {A : Type 0} (p : A → Bool) (xs : List A) → is_empty xs ≡ true → keep p xs ≡ []
keep-is_empty p [] h = refl
keep-is_empty p (x ∷ xs) h = cc h

pub filter_to_scope-is_empty :
    (d : Dns) (scope : Scope) (cs : ChangeSet)
    → is_empty_changes cs ≡ true
    → is_empty_changes (filter_to_scope d scope cs) ≡ true
unfolding filter_to_scope
filter_to_scope-is_empty d scope cs h =
    let p : Record → Bool = λ r. in_scope d scope r.name in
    rw
      (
        keep-is_empty p cs.create (ground arith),
        keep-is_empty p cs.update_to (ground arith),
        keep-is_empty p cs.remove (ground arith),
      )
      refl

keep_none : {A : Type 0} (p : A → Bool) (xs : List A) → ((x : A) → p x ≡ false) → keep p xs ≡ []
keep_none p [] h = refl
keep_none p (x ∷ xs) h = rw (h x) (keep_none p xs h)

longest_match_of_none :
    (d : Dns) (scope : Scope) (name : Name)
    → is_empty_scope scope ≡ true
    → longest_match d scope name ≡ none
unfolding longest_match
longest_match_of_none d scope name h = rw h refl

out_of_scope :
    (d : Dns) (scope : Scope) (r : Record)
    → is_empty_scope scope ≡ true
    → in_scope d scope r.name ≡ false
unfolding in_scope
out_of_scope d scope r h =
    ap (λ (o : Option Name). elim o [ none ↦ false | some n ↦ true ])
      (longest_match_of_none d scope r.name h)

pub filter_to_scope_of_nothing :
    (d : Dns) (scope : Scope) (cs : ChangeSet)
    → (is_empty_changes cs || is_empty_scope scope) ≡ true
    → is_empty_changes (filter_to_scope d scope cs) ≡ true
filter_to_scope_of_nothing d scope cs h = elim (Bool-cases (is_empty_changes cs)) [
  | inl y ↦ filter_to_scope-is_empty d scope cs y
  | inr n ↦ no_scope (ground arith)
]
  where
    no_scope : is_empty_scope scope ≡ true → is_empty_changes (filter_to_scope d scope cs) ≡ true
    no_scope e =
        let out : (r : Record) → in_scope d scope r.name ≡ false = λ r. out_of_scope d scope r e in
        unfold filter_to_scope in
        rw
          (
            keep_none (λ (r : Record). in_scope d scope r.name) cs.create out,
            keep_none (λ (r : Record). in_scope d scope r.name) cs.update_to out,
            keep_none (λ (r : Record). in_scope d scope r.name) cs.remove out,
          )
          refl

no_member : {A : Type 0} {x : A} (xs : List A) → is_empty xs ≡ true → Memᴰ x xs → ⊥
no_member [] h m = elim m [ ]
no_member (x ∷ xs) h m = cc h

pub no_record :
    (cs : ChangeSet) (p : Part) {r : Record}
    → is_empty_changes cs ≡ true
    → Memᴰ r (part_of p cs)
    → ⊥
no_record cs creating h m = no_member cs.create (ground arith) m
no_record cs updating h m = no_member cs.update_to (ground arith) m
no_record cs deleting h m = no_member cs.remove (ground arith) m

module _ {S : Type 0} (d : Dns) (t : TxtCodec) (scope : Scope) (b : Backend S) where
  -- A change set and the part of it that is in scope are applied alike: what is out of scope
  -- decides nothing, neither the answer nor what the backend is asked.
  apply_changes-filter_to_scope :
      (cs : ChangeSet) (s : S)
      → apply_changes d t scope b (filter_to_scope d scope cs) s ≡ apply_changes d t scope b cs s
  unfolding apply_changes
  apply_changes-filter_to_scope cs s =
      elim (Bool-cases (is_empty_changes (filter_to_scope d scope cs))) [
        | inl y ↦ elim (Bool-cases (is_empty_changes cs || is_empty_scope scope)) [
          | inl z ↦ rw (y, z) refl
          | inr z ↦ rw (y, z) refl
        ]
        | inr n ↦ elim (Bool-cases (is_empty_changes cs)) [
          | inl y ↦ cc (n, filter_to_scope-is_empty d scope cs y)
          | inr m ↦ rw (n, m, filter_to_scope_idem d scope cs, n) refl
        ]
      ]

  -- A change set whose part in scope fails the check of the format leaves the backend alone.
  apply_changes-invalid :
      (cs : ChangeSet) (s : S)
      → is_ok (validate_format d t (filter_to_scope d scope cs)) ≡ false
      → (apply_changes d t scope b cs s).1 ≡ s
  unfolding apply_changes apply_in_scope
  apply_changes-invalid cs s h = elim (Bool-cases (is_empty_changes cs || is_empty_scope scope)) [
    | inl y ↦ rw y refl
    | inr n ↦ elim (Bool-cases (is_empty_changes (filter_to_scope d scope cs))) [
      | inl y ↦ rw (n, y) refl
      | inr m ↦ elim (Result-cases (validate_format d t (filter_to_scope d scope cs))) [
        | inl (u, e) ↦ cc (rw e at h)
        | inr (e, k) ↦ rw (n, m, k) refl
      ]
    ]
  ]
