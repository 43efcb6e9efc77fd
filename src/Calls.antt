-- ===== src/Calls.antt =====
-- Calls that act on a state and may fail: the code behind a call and `if err != nil { return err }`.
use external_dns_iij_dpf_web.Base.{ap, refl, ◌≡◌}
use external_dns_iij_dpf_web.Errors.{Result, err, ok, ok-injective, wrap}

abbrev pub Call : Type 0 → Type 0 → Type 0
Call S A = S → Result A × S

module _ {S A : Type 0} where
  abbrev pub pure : A → Call S A
  pure a s = (ok a, s)

  abbrev pub lift : Result A → Call S A
  lift r s = (r, s)

  -- `fmt.Errorf("...: %w", err)` around the error of a call.
  abbrev pub wrapping : Call S A → Call S A
  wrapping m s = let (r, s') = m s in (elim r [ ok a ↦ ok a | err e ↦ err (wrap e) ], s')

module _ {S A B : Type 0} where
  abbrev pub continue : Result A → (A → Call S B) → Call S B
  continue (ok a) f s = f a s
  continue (err e) f s = (err e, s)

  abbrev pub and_then : Call S A → (A → Call S B) → Call S B
  and_then m f s = let (r, s') = m s in continue r f s'

module _ {S A B : Type 0} where
  -- Inversion of two calls in a row that succeed.
  pub and_then-eq-ok :
      (m : Call S A) (f : A → Call S B) (s s' : S) {b : B}
      → and_then m f s ≡ (ok b, s')
      → (a : A) × (t : S) × (m s ≡ (ok a, t)) × (f a t ≡ (ok b, s'))
  and_then-eq-ok m f s s' {b} h = go (m s).0 (m s).1 refl h
    where
      go :
          (r : Result A) (t : S)
          → m s ≡ (r, t)
          → continue r f t ≡ (ok b, s')
          → (a : A) × (t : S) × (m s ≡ (ok a, t)) × (f a t ≡ (ok b, s'))
      go (ok a) t e k = (a, t, e, k)
      go (err e) t x k = cc (ap (λ (p : Result B × S). p.0) k)

module _ {S A : Type 0} where
  pub pure-eq-ok : {a b : A} {s s' : S} → pure a s ≡ (ok b, s') → (a ≡ b) × (s ≡ s')
  pure-eq-ok h = (ok-injective (ap (λ (p : Result A × S). p.0) h), ap (λ (p : Result A × S). p.1) h)

  pub wrapping-eq-ok :
      (m : Call S A) (s : S) {a : A} {t : S} → wrapping m s ≡ (ok a, t) → m s ≡ (ok a, t)
  wrapping-eq-ok m s {a} {t} h = go (m s).0 (m s).1 h
    where
      go :
          (r : Result A) (u : S)
          → ◌≡◌ {A = Result A × S} (elim r [ ok x ↦ ok x | err e ↦ err (wrap e) ], u) (ok a, t)
          → ◌≡◌ {A = Result A × S} (r, u) (ok a, t)
      go (ok x) u k = k
      go (err e) u k = cc (ap (λ (p : Result A × S). p.0) k)
