-- ===== src/Config/Undefined.antt =====
-- Lemmas on `Load` of internal/config/config.go: arguments that name no flag.
use external_dns_iij_dpf_web.Base.{
  Bool-cases, List, Option, [], ap, contains, eq_list, eq_ℕ, false, if◌then◌else◌, inl, inr, lookup,
  map, none, refl, some, some_inj, ◌++◌, ◌==◌, ◌||◌, ◌∙◌, ◌∷◌, ◌≡◌,
}
use external_dns_iij_dpf_web.Base.Int.{eq_ℤ}
use external_dns_iij_dpf_web.Base.Text.{Text, codes}
use external_dns_iij_dpf_web.Config.Flags.{
  Action, Argument, Values, act, defaults, finish, flag_names, go_on, invalid_flag, named,
  parse_flags, read_argument, set_flag, take_next,
}
use external_dns_iij_dpf_web.Config.Settings.{build, load}
use external_dns_iij_dpf_web.Dnsname.Name.{Dns, eq_name}
use external_dns_iij_dpf_web.Errors.{Error, Result, err, err_help_requested, ok, sentinel, ◌>>=◌}

-- The names of the nine flags.
abbrev pub known_names : List Text
known_names =
    codes "domain-filter"
    ∷ codes "dpf-endpoint"
    ∷ codes "dpf-token-file"
    ∷ codes "provider-addr"
    ∷ codes "exposed-addr"
    ∷ codes "otlp-endpoint"
    ∷ codes "otlp-protocol"
    ∷ codes "otlp-insecure"
    ∷ codes "log-level"
    ∷ []

lookup_of_unknown :
    {V : Type 0} (name : Text) (m : List (Text × V))
    → contains (map (λ p. p.0) m) name ≡ false
    → lookup name m ≡ none
lookup_of_unknown name [] h = refl
lookup_of_unknown name ((j, v) ∷ m) h = elim (Bool-cases (j == name)) [
  | inl y ↦ cc (rw y at h)
  | inr n ↦ rw n (lookup_of_unknown name m (rw n at h))
]

-- What the reading of an argument that names no flag comes to.
abbrev pub refusal : Text → Error
refusal name =
    if name == codes "help" || name == codes "h" then sentinel err_help_requested else invalid_flag

act-refusal :
    (d : Dns) (name : Text) (value : Option Text) (v : Values)
    → contains known_names name ≡ false
    → act d (named name value) v ≡ finish (err (refusal name))
unfolding act
act-refusal d name value v u = elim (Bool-cases (name == codes "help" || name == codes "h")) [
  | inl y ↦ rw (lookup_of_unknown name flag_names u, y) refl
  | inr n ↦ rw (lookup_of_unknown name flag_names u, n) refl
]

module _ (d : Dns) where
  -- The values behind arguments that are read as flags and their values to the last one; none where
  -- the reading stops before, or still wants a value.
  abbrev pub read_flags : List Text → Values → Option Values
  read_flags [] v = some v
  read_flags (a ∷ []) v = elim (act d (read_argument a) v) [
    | finish r ↦ none
    | go_on w ↦ some w
    | take_next f ↦ none
  ]
  read_flags (a ∷ b ∷ args) v = elim (act d (read_argument a) v) [
    | finish r ↦ none
    | go_on w ↦ read_flags (b ∷ args) w
    | take_next f ↦ elim (set_flag d f b v) [ none ↦ none | some w ↦ read_flags args w ]
  ]

  -- How `parse_flags` goes on behind an argument.
  abbrev go_behind : Values → Action → List Text → Result Values
  go_behind v (finish r) rest = r
  go_behind v (go_on w) rest = parse_flags d rest w
  go_behind v (take_next f) [] = err invalid_flag
  go_behind v (take_next f) (b ∷ args) = elim (set_flag d f b v) [
    | none ↦ err invalid_flag
    | some w ↦ parse_flags d args w
  ]

  parse_flags-after :
      (a : Text) (rest : List Text) (v : Values)
      → parse_flags d (a ∷ rest) v ≡ go_behind v (act d (read_argument a) v) rest
  unfolding parse_flags
  parse_flags-after a [] v = go (act d (read_argument a) v)
    where
      go :
          (x : Action)
          → elim x [ finish r ↦ r | go_on w ↦ ok w | take_next f ↦ err invalid_flag ]
            ≡ go_behind v x []
      go (finish r) = refl
      go (go_on w) = refl
      go (take_next f) = refl
  parse_flags-after a (b ∷ args) v = go (act d (read_argument a) v)
    where
      go :
          (x : Action)
          → elim x [
            | finish r ↦ r
            | go_on w ↦ parse_flags d (b ∷ args) w
            | take_next f ↦ elim (set_flag d f b v) [
              | none ↦ err invalid_flag
              | some w ↦ parse_flags d args w
            ]
          ]
            ≡ go_behind v x (b ∷ args)
      go (finish r) = refl
      go (go_on w) = refl
      go (take_next f) = refl

  -- Arguments that are read to the last one are read alike whatever stands behind them.
  parse_flags-append :
      (before rest : List Text) (v w : Values)
      → read_flags before v ≡ some w
      → parse_flags d (before ++ rest) v ≡ parse_flags d rest w
  parse_flags-append [] rest v w h = ap (λ (x : Values). parse_flags d rest x) (some_inj h)
  parse_flags-append (a ∷ []) rest v w h =
      parse_flags-after a rest v ∙ go (act d (read_argument a) v) h
    where
      go :
          (x : Action)
          → elim x [ finish r ↦ none | go_on u ↦ some u | take_next f ↦ none ] ≡ some w
          → go_behind v x rest ≡ parse_flags d rest w
      go (finish r) k = cc k
      go (go_on u) k = ap (λ (x : Values). parse_flags d rest x) (some_inj k)
      go (take_next f) k = cc k
  parse_flags-append (a ∷ b ∷ args) rest v w h =
      parse_flags-after a (b ∷ (args ++ rest)) v
      ∙ go (act d (read_argument a) v) (λ u k. parse_flags-append (b ∷ args) rest u w k)
          (λ u k. parse_flags-append args rest u w k) h
    where
      set :
          (o : Option Values)
          → ((u : Values)
              → read_flags args u ≡ some w
              → parse_flags d (args ++ rest) u ≡ parse_flags d rest w)
          → elim o [ none ↦ none | some u ↦ read_flags args u ] ≡ some w
          → elim o [ none ↦ err invalid_flag | some u ↦ parse_flags d (args ++ rest) u ]
            ≡ parse_flags d rest w
      set none ih k = cc k
      set (some u) ih k = ih u k

      go :
          (x : Action)
          → ((u : Values)
              → read_flags (b ∷ args) u ≡ some w
              → parse_flags d (b ∷ (args ++ rest)) u ≡ parse_flags d rest w)
          → ((u : Values)
              → read_flags args u ≡ some w
              → parse_flags d (args ++ rest) u ≡ parse_flags d rest w)
          → elim x [
            | finish r ↦ none
            | go_on u ↦ read_flags (b ∷ args) u
            | take_next f ↦ elim (set_flag d f b v) [ none ↦ none | some u ↦ read_flags args u ]
          ]
            ≡ some w
          → go_behind v x (b ∷ (args ++ rest)) ≡ parse_flags d rest w
      go (finish r) ih jh k = cc k
      go (go_on u) ih jh k = ih u k
      go (take_next f) ih jh k = set (set_flag d f b v) jh k

  -- An argument that is read as a flag and names none of the nine flags, such as one that would take
  -- the token itself, makes the load fail, whatever flags stand before it and whatever stands behind
  -- it: with a request for help if it is that, and as an invalid flag otherwise.
  pub load-refusal :
      (before after : List Text) (a name : Text) (value : Option Text) (w : Values)
      → read_flags before defaults ≡ some w
      → read_argument a ≡ named name value
      → contains known_names name ≡ false
      → load d (before ++ a ∷ after) ≡ err (refusal name)
  unfolding load
  load-refusal before rest a name value w reads r u =
      ap (λ (m : Result Values). m >>= build)
        (parse_flags-append before (a ∷ rest) defaults w reads
          ∙ parse_flags-after a rest w
          ∙ ap (λ (x : Action). go_behind w x rest)
              (ap (λ (x : Argument). act d x w) r ∙ act-refusal d name value w u))
