-- ===== src/Provider/Format.antt =====
-- Lemmas on `ValidateFormat` of internal/provider/validate.go: what it lets pass, and its
-- errors.
use external_dns_iij_dpf_web.Base.{
  All, Bool, List, [], false, if◌then◌else◌, refl, true, ℕ, ◌↔◌, ◌∷◌, ◌≡◌,
}
use external_dns_iij_dpf_web.Base.Text.{Text}
use external_dns_iij_dpf_web.Dnsname.Name.{Dns}
use external_dns_iij_dpf_web.Errors.{
  >>=-eq-ok, Error, IsPermanent, OnError, Result, err, err_permanent, is, ok, sentinel, wrap2, ◌>>◌,
}
use external_dns_iij_dpf_web.Provider.Txt.{TxtCodec, split_txt}
use external_dns_iij_dpf_web.Provider.Types.{
  ChangeSet, Record, all_records, is_supported_record_type, unsupported,
}
use external_dns_iij_dpf_web.Provider.Validate.{
  check, each, permanent, valid_ttl, validate_cname_exclusivity, validate_format,
  validate_no_underscore, validate_numeric_prefix, validate_numeric_value, validate_rdata,
  validate_record, validate_single_value, validate_txt, validate_txt_value,
}

-- A failure is a permanent one.
unfoldable OnlyPermanent : Result (Unit {0}) → Type 0
OnlyPermanent m = OnError IsPermanent m

each-IsPermanent :
    {A : Type 0} (f : A → Result (Unit {0})) (xs : List A)
    → ((a : A) → OnlyPermanent (f a))
    → OnlyPermanent (each f xs)
unfolding each OnlyPermanent
each-IsPermanent f [] h = tt
each-IsPermanent f (x ∷ xs) h = go (f x) (h x) (each-IsPermanent f xs h)
  where
    go :
        (m : Result (Unit {0}))
        → OnlyPermanent m
        → OnlyPermanent (each f xs)
        → OnlyPermanent (m >> each f xs)
    go (ok u) p q = q
    go (err e) p q = p

-- `each` succeeds exactly if each element does.
pub each_iff :
    {A : Type 0} (f : A → Result (Unit {0})) (xs : List A)
    → (each f xs ≡ ok tt) ↔ All (λ a. f a ≡ ok tt) xs
unfolding each
each_iff f [] = (λ h. tt, λ h. refl)
each_iff f (x ∷ xs) = (
  λ h. let (u, e, k) = >>=-eq-ok (f x) (λ u. each f xs) h in (e, (each_iff f xs).0 k),
  λ h. rw (h.0) ((each_iff f xs).1 h.1),
)

check-IsPermanent : (b : Bool) (e : Error) → IsPermanent e → OnlyPermanent (check b e)
unfolding OnlyPermanent
check-IsPermanent true e h = tt
check-IsPermanent false e h = h

>>-IsPermanent :
    (m n : Result (Unit {0})) → OnlyPermanent m → OnlyPermanent n → OnlyPermanent (m >> n)
unfolding OnlyPermanent
>>-IsPermanent (ok u) n p q = q
>>-IsPermanent (err e) n p q = p

check-ok : (b : Bool) (e : Error) {u : Unit {0}} → check b e ≡ ok u → b ≡ true
check-ok true e h = refl
check-ok false e h = cc h

ok-IsPermanent : OnlyPermanent (ok tt)
unfolding OnlyPermanent
ok-IsPermanent = tt

if-IsPermanent :
    (b : Bool) (m n : Result (Unit {0}))
    → OnlyPermanent m
    → OnlyPermanent n
    → OnlyPermanent (if b then m else n)
if-IsPermanent true m n p q = p
if-IsPermanent false m n p q = q

permanent-IsPermanent : IsPermanent permanent
unfolding is
permanent-IsPermanent = refl

numeric-IsPermanent : (r : Record) (n want : ℕ) → OnlyPermanent (validate_numeric_prefix r n want)
unfolding validate_numeric_prefix validate_numeric_value
numeric-IsPermanent r n want = each-IsPermanent (validate_numeric_value n want) r.values (λ v.
    >>-IsPermanent _ _ (check-IsPermanent _ permanent permanent-IsPermanent)
      (check-IsPermanent _ permanent permanent-IsPermanent))

module _ (d : Dns) (t : TxtCodec) where
  txt-IsPermanent : (v : Text) → OnlyPermanent (validate_txt_value d t v)
  unfolding validate_txt_value is OnlyPermanent
  txt-IsPermanent v = go (split_txt t v)
    where
      go :
          (m : Result (List Text))
          → OnlyPermanent
              (elim m [ ok strings ↦ ok tt | err e ↦ err (wrap2 (sentinel err_permanent) e) ])
      go (ok ss) = tt
      go (err e) = refl

  rdata-IsPermanent : (r : Record) → OnlyPermanent (validate_rdata d t r)
  unfolding validate_rdata validate_no_underscore validate_single_value validate_txt
  rdata-IsPermanent r =
      (search
        (
          if-IsPermanent, check-IsPermanent, ok-IsPermanent, permanent-IsPermanent,
          numeric-IsPermanent, txt-IsPermanent, each-IsPermanent,
        )
        depth 14)

  record-IsPermanent : (r : Record) → OnlyPermanent (validate_record d t r)
  unfolding validate_record is
  record-IsPermanent r = >>-IsPermanent _ _ (check-IsPermanent _ unsupported refl) (
      >>-IsPermanent _ _ (check-IsPermanent _ permanent permanent-IsPermanent)
        (rdata-IsPermanent r))

  -- Whatever the format check finds is a permanent error: trying again would not help.
  pub validate_format-IsPermanent : (cs : ChangeSet) → OnError IsPermanent (validate_format d t cs)
  unfolding validate_format validate_cname_exclusivity OnlyPermanent
  validate_format-IsPermanent cs =
      >>-IsPermanent _ _
        (each-IsPermanent (validate_record d t) (all_records cs) record-IsPermanent)
        (check-IsPermanent _ permanent permanent-IsPermanent)

  -- A change set that passes the format check has only records of supported types with valid TTLs.
  validate_format-valid :
      (cs : ChangeSet)
      → validate_format d t cs ≡ ok tt
      → All
          (λ r. (is_supported_record_type r.rtype ≡ true) × (valid_ttl r.ttl ≡ true))
          (all_records cs)
  unfolding validate_format validate_record
  validate_format-valid cs h =
      let (u, e, k) =
        >>=-eq-ok (each (validate_record d t) (all_records cs)) (λ u. validate_cname_exclusivity cs)
          h in
      All-imp (all_records cs) ((each_iff (validate_record d t) (all_records cs)).0 e)
    where
      one :
          (r : Record)
          → validate_record d t r ≡ ok tt
          → (is_supported_record_type r.rtype ≡ true) × (valid_ttl r.ttl ≡ true)
      one r k =
          let (u, e, f) =
            >>=-eq-ok (check (is_supported_record_type r.rtype) unsupported)
              (λ u. check (valid_ttl r.ttl) permanent >> validate_rdata d t r) k in
          let (v, g, h) =
            >>=-eq-ok (check (valid_ttl r.ttl) permanent) (λ v. validate_rdata d t r) f in
          (check-ok _ unsupported e, check-ok _ permanent g)

      All-imp :
          (rs : List Record)
          → All (λ r. validate_record d t r ≡ ok tt) rs
          → All (λ r. (is_supported_record_type r.rtype ≡ true) × (valid_ttl r.ttl ≡ true)) rs
      All-imp [] k = tt
      All-imp (r ∷ rs) k = (one r k.0, All-imp rs k.1)
