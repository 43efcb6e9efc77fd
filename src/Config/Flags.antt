-- ===== src/Config/Flags.antt =====
-- internal/config/config.go: the flags, and the reading of the arguments by the package flag.
use external_dns_iij_dpf_web.Base.{
  Bool, List, Option, [], contains, eq_list, eq_ℕ, false, if◌then◌else◌, is_empty, lookup, nat_eq,
  none, not, some, true, ℕ, ◌++◌, ◌==◌, ◌||◌, ◌∷◌,
}
use external_dns_iij_dpf_web.Base.Int.{eq_ℤ}
use external_dns_iij_dpf_web.Base.Text.{Text, codes}
use external_dns_iij_dpf_web.Dnsname.Name.{Dns, Name, eq_name, parse}
use external_dns_iij_dpf_web.Errors.{
  Error, Result, err, err_help_requested, err_invalid, ok, plain, sentinel, wrap2,
}

-- The nine flags.
pub data Flag : Type 0 where
  domain_filter_flag dpf_endpoint_flag token_file_flag provider_addr_flag : Flag
  exposed_addr_flag otlp_endpoint_flag otlp_protocol_flag otlp_insecure_flag : Flag
  log_level_flag : Flag

pub record Values : Type 0 where
  pub domains : List Name
  pub dpf_endpoint : Text
  pub token_file : Text
  pub provider_addr : Text
  pub exposed_addr : Text
  pub otlp_endpoint : Text
  pub otlp_protocol : Text
  pub otlp_insecure : Bool
  pub log_level : Text

abbrev pub defaults : Values
defaults = record {
  domains = [];
  dpf_endpoint = [];
  token_file = [];
  provider_addr = codes "127.0.0.1:8888";
  exposed_addr = codes ":8080";
  otlp_endpoint = [];
  otlp_protocol = codes "grpc";
  otlp_insecure = false;
  log_level = codes "info";
}

abbrev pub flag_names : List (Text × Flag)
flag_names =
    (codes "domain-filter", domain_filter_flag)
    ∷ (codes "dpf-endpoint", dpf_endpoint_flag)
    ∷ (codes "dpf-token-file", token_file_flag)
    ∷ (codes "provider-addr", provider_addr_flag)
    ∷ (codes "exposed-addr", exposed_addr_flag)
    ∷ (codes "otlp-endpoint", otlp_endpoint_flag)
    ∷ (codes "otlp-protocol", otlp_protocol_flag)
    ∷ (codes "otlp-insecure", otlp_insecure_flag)
    ∷ (codes "log-level", log_level_flag)
    ∷ []

-- `strconv.ParseBool`.
abbrev true_words : List Text
true_words = codes "1" ∷ codes "t" ∷ codes "T" ∷ codes "TRUE" ∷ codes "true" ∷ codes "True" ∷ []

abbrev false_words : List Text
false_words = codes "0" ∷ codes "f" ∷ codes "F" ∷ codes "FALSE" ∷ codes "false" ∷ codes "False" ∷ []

unfoldable pub parse_bool : Text → Option Bool
parse_bool s =
    if contains true_words s then some true else if contains false_words s then some false else none

-- A flag's `Set`; none is its error.
unfoldable pub set_flag : Dns → Flag → Text → Values → Option Values
set_flag d domain_filter_flag s v = elim (parse d s) [
  | err e ↦ none
  | ok n ↦ some (record v { domains = v.domains ++ n ∷ [] })
]
set_flag d dpf_endpoint_flag s v = some (record v { dpf_endpoint = s })
set_flag d token_file_flag s v = some (record v { token_file = s })
set_flag d provider_addr_flag s v = some (record v { provider_addr = s })
set_flag d exposed_addr_flag s v = some (record v { exposed_addr = s })
set_flag d otlp_endpoint_flag s v = some (record v { otlp_endpoint = s })
set_flag d otlp_protocol_flag s v = some (record v { otlp_protocol = s })
set_flag d otlp_insecure_flag s v = elim (parse_bool s) [
  | none ↦ none
  | some b ↦ some (record v { otlp_insecure = b })
]
set_flag d log_level_flag s v = some (record v { log_level = s })

-- What an argument is: no flag, which ends the reading, a flag in bad syntax, or a flag's name
-- with the value behind its `=`.
pub data Argument : Type 0 where
  no_flag bad_syntax : Argument
  named : Text → Option Text → Argument

abbrev pub dash : ℕ
dash = 45

abbrev pub equals_sign : ℕ
equals_sign = 61

abbrev with_head : ℕ → Text × Option Text → Text × Option Text
with_head c (name, value) = (c ∷ name, value)

unfoldable pub split_value : Text → Text × Option Text
split_value [] = ([], none)
split_value (c ∷ s) =
    let rest = split_value s in if nat_eq c equals_sign then ([], some s) else with_head c rest

abbrev pub named_by : Text × Option Text → Argument
named_by (name, value) = named name value

unfoldable pub read_name : Text → Argument
unfolding split_value
read_name [] = bad_syntax
read_name (c ∷ s) =
    if nat_eq c dash || nat_eq c equals_sign then bad_syntax else named_by (split_value (c ∷ s))

unfoldable pub read_argument : Text → Argument
unfolding read_name
read_argument [] = no_flag
read_argument (a ∷ []) = no_flag
read_argument (a ∷ b ∷ s) =
    if not (nat_eq a dash)
    then no_flag
    else if not (nat_eq b dash)
    then read_name (b ∷ s)
    else if is_empty s
    then no_flag
    else read_name s

-- `Load` wraps what the package reports, but for a request for help.
abbrev pub invalid_flag : Error
invalid_flag = wrap2 (sentinel err_invalid) plain

-- How the reading goes on behind an argument.
pub data Action : Type 0 where
  finish : Result Values → Action
  go_on : Values → Action
  take_next : Flag → Action

abbrev pub after_set : Option Values → Action
after_set none = finish (err invalid_flag)
after_set (some v) = go_on v

abbrev pub without_value : Dns → Flag → Values → Action
without_value d otlp_insecure_flag v = go_on (record v { otlp_insecure = true })
without_value d f v = take_next f

unfoldable pub act : Dns → Argument → Values → Action
unfolding set_flag
act d no_flag v = finish (ok v)
act d bad_syntax v = finish (err invalid_flag)
act d (named name value) v = elim (lookup name flag_names) [
  | none ↦
      if name == codes "help" || name == codes "h"
      then finish (err (sentinel err_help_requested))
      else finish (err invalid_flag)
  | some f ↦ elim value [ none ↦ without_value d f v | some s ↦ after_set (set_flag d f s v) ]
]

-- `FlagSet.Parse`.
unfoldable pub parse_flags : Dns → List Text → Values → Result Values
unfolding act read_argument
parse_flags d [] v = ok v
parse_flags d (a ∷ []) v = elim (act d (read_argument a) v) [
  | finish r ↦ r
  | go_on w ↦ ok w
  | take_next f ↦ err invalid_flag
]
parse_flags d (a ∷ b ∷ args) v = elim (act d (read_argument a) v) [
  | finish r ↦ r
  | go_on w ↦ parse_flags d (b ∷ args) w
  | take_next f ↦ elim (set_flag d f b v) [
    | none ↦ err invalid_flag
    | some w ↦ parse_flags d args w
  ]
]
