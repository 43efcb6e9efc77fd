-- ===== src/Config/Reading.antt =====
-- Lemmas on the reading of the arguments in internal/config/config.go: the domains that it
-- collects, and its errors.
use external_dns_iij_dpf_web.Base.{
  All, All-append, Bool, List, Option, [], eq_list, eq_ℕ, false, if◌then◌else◌, lookup, none, refl,
  some, some_inj, subst, true, ◌++◌, ◌==◌, ◌||◌, ◌∷◌, ◌≡◌,
}
use external_dns_iij_dpf_web.Base.Int.{eq_ℤ}
use external_dns_iij_dpf_web.Base.Text.{Text, codes}
use external_dns_iij_dpf_web.Config.Flags.{
  Action, Argument, Flag, Values, act, after_set, bad_syntax, domain_filter_flag, dpf_endpoint_flag,
  exposed_addr_flag, finish, flag_names, go_on, invalid_flag, log_level_flag, named, no_flag,
  otlp_endpoint_flag, otlp_insecure_flag, otlp_protocol_flag, parse_bool, parse_flags,
  provider_addr_flag, read_argument, set_flag, take_next, token_file_flag, without_value,
}
use external_dns_iij_dpf_web.Config.Settings.{invalid_setting, missing_setting}
use external_dns_iij_dpf_web.Dnsname.Laws.{DnsLaws, IsCanonical, parse-IsCanonical}
use external_dns_iij_dpf_web.Dnsname.Name.{Dns, Name, eq_name, parse}
use external_dns_iij_dpf_web.Errors.{
  Error, Result, err, err_help_requested, err_invalid, err_missing_required, is, ok, sentinel,
}

-- One of the three sentinels of the package is in the error.
abbrev pub IsReported : Error → Type 0
IsReported e = (is err_missing_required e || is err_invalid e || is err_help_requested e) ≡ true

pub invalid_flag-IsReported : IsReported invalid_flag
unfolding is
invalid_flag-IsReported = refl

pub help-IsReported : IsReported (sentinel err_help_requested)
unfolding is
help-IsReported = refl

pub invalid_setting-IsReported : IsReported invalid_setting
unfolding is
invalid_setting-IsReported = refl

pub missing_setting-IsReported : IsReported missing_setting
unfolding is
missing_setting-IsReported = refl

module _ (d : Dns) (laws : DnsLaws d) where
  abbrev pub HasCanonical : Values → Type 0
  HasCanonical v = All (IsCanonical d) v.domains

  set_flag-HasCanonical :
      (f : Flag) (s : Text) (v w : Values)
      → set_flag d f s v ≡ some w
      → HasCanonical v
      → HasCanonical w
  unfolding set_flag
  set_flag-HasCanonical domain_filter_flag s v w e h = go (parse d s) refl e
    where
      go :
          (m : Result Name)
          → parse d s ≡ m
          → elim m [ err c ↦ none | ok n ↦ some (record v { domains = v.domains ++ n ∷ [] }) ]
            ≡ some w
          → HasCanonical w
      go (err c) p x = cc x
      go (ok n) p x =
          subst HasCanonical (some_inj x)
            (All-append (IsCanonical d) v.domains (n ∷ []) h (parse-IsCanonical laws s n p, tt))
  set_flag-HasCanonical otlp_insecure_flag s v w e h = go (parse_bool s) e
    where
      go :
          (o : Option Bool)
          → elim o [ none ↦ none | some b ↦ some (record v { otlp_insecure = b }) ] ≡ some w
          → HasCanonical w
      go none x = cc x
      go (some b) x = subst HasCanonical (some_inj x) h
  set_flag-HasCanonical dpf_endpoint_flag s v w e h = subst HasCanonical (some_inj e) h
  set_flag-HasCanonical token_file_flag s v w e h = subst HasCanonical (some_inj e) h
  set_flag-HasCanonical provider_addr_flag s v w e h = subst HasCanonical (some_inj e) h
  set_flag-HasCanonical exposed_addr_flag s v w e h = subst HasCanonical (some_inj e) h
  set_flag-HasCanonical otlp_endpoint_flag s v w e h = subst HasCanonical (some_inj e) h
  set_flag-HasCanonical otlp_protocol_flag s v w e h = subst HasCanonical (some_inj e) h
  set_flag-HasCanonical log_level_flag s v w e h = subst HasCanonical (some_inj e) h

  -- What an action goes on with has canonical domains, if it goes on with values.
  abbrev pub Carries : Action → Type 0
  Carries (finish (ok w)) = HasCanonical w
  Carries (finish (err e)) = IsReported e
  Carries (go_on w) = HasCanonical w
  Carries (take_next f) = Unit

  without_value-Carries : (f : Flag) (v : Values) → HasCanonical v → Carries (without_value d f v)
  without_value-Carries otlp_insecure_flag v h = h
  without_value-Carries domain_filter_flag v h = tt
  without_value-Carries dpf_endpoint_flag v h = tt
  without_value-Carries token_file_flag v h = tt
  without_value-Carries provider_addr_flag v h = tt
  without_value-Carries exposed_addr_flag v h = tt
  without_value-Carries otlp_endpoint_flag v h = tt
  without_value-Carries otlp_protocol_flag v h = tt
  without_value-Carries log_level_flag v h = tt

  act-Carries : (a : Argument) (v : Values) → HasCanonical v → Carries (act d a v)
  unfolding act
  act-Carries no_flag v h = h
  act-Carries bad_syntax v h = invalid_flag-IsReported
  act-Carries (named name value) v h = go (lookup name flag_names) value
    where
      helped :
          (b : Bool)
          → Carries
              (if b then finish (err (sentinel err_help_requested)) else finish (err invalid_flag))
      helped true = help-IsReported
      helped false = invalid_flag-IsReported

      set : (o : Option Values) (f : Flag) (s : Text) → set_flag d f s v ≡ o → Carries (after_set o)
      set none f s e = invalid_flag-IsReported
      set (some w) f s e = set_flag-HasCanonical f s v w e h

      go :
          (o : Option Flag) (value : Option Text)
          → Carries (elim o [
            | none ↦
                if name == codes "help" || name == codes "h"
                then finish (err (sentinel err_help_requested))
                else finish (err invalid_flag)
            | some f ↦ elim value [
              | none ↦ without_value d f v
              | some s ↦ after_set (set_flag d f s v)
            ]
          ])
      go none value = helped (name == codes "help" || name == codes "h")
      go (some f) none = without_value-Carries f v h
      go (some f) (some s) = set (set_flag d f s v) f s refl

  abbrev pub Loads : Result Values → Type 0
  Loads (ok w) = HasCanonical w
  Loads (err e) = IsReported e

  pub parse_flags-Loads :
      (args : List Text) (v : Values) → HasCanonical v → Loads (parse_flags d args v)
  unfolding parse_flags
  parse_flags-Loads [] v h = h
  parse_flags-Loads (a ∷ []) v h =
      go (act d (read_argument a) v) (act-Carries (read_argument a) v h)
    where
      go :
          (x : Action)
          → Carries x
          → Loads (elim x [ finish r ↦ r | go_on w ↦ ok w | take_next f ↦ err invalid_flag ])
      go (finish (ok w)) k = k
      go (finish (err e)) k = k
      go (go_on w) k = k
      go (take_next f) k = invalid_flag-IsReported
  parse_flags-Loads (a ∷ b ∷ args) v h =
      go (act d (read_argument a) v) (act-Carries (read_argument a) v h)
        (λ w k. parse_flags-Loads (b ∷ args) w k) (λ w k. parse_flags-Loads args w k)
    where
      next :
          (o : Option Values) (f : Flag)
          → set_flag d f b v ≡ o
          → ((w : Values) → HasCanonical w → Loads (parse_flags d args w))
          → Loads (elim o [ none ↦ err invalid_flag | some w ↦ parse_flags d args w ])
      next none f e k = invalid_flag-IsReported
      next (some w) f e k = k w (set_flag-HasCanonical f b v w e h)

      go :
          (x : Action)
          → Carries x
          → ((w : Values) → HasCanonical w → Loads (parse_flags d (b ∷ args) w))
          → ((w : Values) → HasCanonical w → Loads (parse_flags d args w))
          → Loads (elim x [
            | finish r ↦ r
            | go_on w ↦ parse_flags d (b ∷ args) w
            | take_next f ↦ elim (set_flag d f b v) [
              | none ↦ err invalid_flag
              | some w ↦ parse_flags d args w
            ]
          ])
      go (finish (ok w)) c k l = c
      go (finish (err e)) c k l = c
      go (go_on w) c k l = k w c
      go (take_next f) c k l = next (set_flag d f b v) f refl l
