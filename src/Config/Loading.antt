-- ===== src/Config/Loading.antt =====
-- Lemmas on `Load` of internal/config/config.go: its successes and its failures.
use external_dns_iij_dpf_web.Base.{
  ==_iff, All, All-mem, All-of_mem, Bool-cases, List, [], eq_list, eq_ℕ, inl, inr, is_empty,
  mem_of_keep, not, subst, ◌&&◌, ◌==◌, ◌≡◌, ◌≢◌, ◌⊎◌,
}
use external_dns_iij_dpf_web.Base.Int.{eq_ℤ}
use external_dns_iij_dpf_web.Base.Text.{Text, codes}
use external_dns_iij_dpf_web.Config.Flags.{Values, defaults, parse_flags}
use external_dns_iij_dpf_web.Config.Reading.{
  HasCanonical, IsReported, Loads, invalid_setting-IsReported, missing_setting-IsReported,
  parse_flags-Loads,
}
use external_dns_iij_dpf_web.Config.Settings.{
  DpfSettings, Settings, build, load, parse_log_level, settings_of, validate_otlp_protocol,
  validate_token_source,
}
use external_dns_iij_dpf_web.Dnsname.Laws.{DnsLaws, IsCanonical}
use external_dns_iij_dpf_web.Dnsname.Name.{Dns, eq_name, is_zero}
use external_dns_iij_dpf_web.Errors.{
  >>=-eq-ok, OnError, OnError->>=, Result, err, ok, ok-injective, ◌>>=◌, ◌>>◌,
}

token_given : (x : DpfSettings) {u : Unit {0}} → validate_token_source x ≡ ok u → x.token_file ≢ []
unfolding validate_token_source
token_given x h e = cc (rw e at h)

protocol_served :
    (p : Text) {u : Unit {0}}
    → validate_otlp_protocol p ≡ ok u
    → (p ≡ codes "grpc") ⊎ (p ≡ codes "http")
unfolding validate_otlp_protocol
protocol_served p h = elim (Bool-cases (p == codes "grpc")) [
  | inl y ↦ inl ((==_iff p (codes "grpc")).0 y)
  | inr n ↦ elim (Bool-cases (p == codes "http")) [
    | inl y ↦ inr ((==_iff p (codes "http")).0 y)
    | inr m ↦ cc (rw (n, m) at h)
  ]
]

parse_log_level-IsReported : (s : Text) → OnError IsReported (parse_log_level s)
unfolding parse_log_level
parse_log_level-IsReported s = elim (Bool-cases (s == codes "debug")) [
  | inl y ↦ rw y tt
  | inr n ↦ elim (Bool-cases (s == codes "info")) [
    | inl y ↦ rw (n, y) tt
    | inr m ↦ elim (Bool-cases (s == codes "warn")) [
      | inl y ↦ rw (n, m, y) tt
      | inr l ↦ elim (Bool-cases (s == codes "error")) [
        | inl y ↦ rw (n, m, l, y) tt
        | inr k ↦ rw (n, m, l, k) invalid_setting-IsReported
      ]
    ]
  ]
]

validate_token_source-IsReported : (x : DpfSettings) → OnError IsReported (validate_token_source x)
unfolding validate_token_source
validate_token_source-IsReported x = elim (Bool-cases (is_empty x.token_file)) [
  | inl y ↦ rw y missing_setting-IsReported
  | inr n ↦ rw n tt
]

validate_otlp_protocol-IsReported : (p : Text) → OnError IsReported (validate_otlp_protocol p)
unfolding validate_otlp_protocol
validate_otlp_protocol-IsReported p =
    elim (Bool-cases (not (p == codes "grpc") && not (p == codes "http"))) [
      | inl y ↦ rw y invalid_setting-IsReported
      | inr n ↦ rw n tt
    ]

build-IsReported : (v : Values) → OnError IsReported (build v)
unfolding build
build-IsReported v =
    OnError->>= IsReported (parse_log_level v.log_level) _ (parse_log_level-IsReported v.log_level)
      (λ level.
        OnError->>= IsReported
          (validate_token_source (record { endpoint = v.dpf_endpoint; token_file = v.token_file }))
          _ (validate_token_source-IsReported _)
          (λ u.
            OnError->>= IsReported (validate_otlp_protocol v.otlp_protocol)
              (λ w. ok (settings_of v level)) (validate_otlp_protocol-IsReported v.otlp_protocol)
              (λ w. tt)))

module _ (d : Dns) (laws : DnsLaws d) where
  -- Settings that the program can start with: a token file, a protocol that is served, and a scope
  -- of canonical names.
  abbrev pub IsUsable : Settings → Type 0
  IsUsable c =
      (c.dpf.token_file ≢ [])
      × ((c.telemetry.otlp_protocol ≡ codes "grpc") ⊎ (c.telemetry.otlp_protocol ≡ codes "http"))
      × All (IsCanonical d) c.scope.domains

  -- Whatever the arguments, settings that are loaded name a token file, have one of the two
  -- protocols, and a scope of canonical names only, under the laws of the DNS library.
  pub load-IsUsable : (args : List Text) (c : Settings) → load d args ≡ ok c → IsUsable c
  unfolding load build
  load-IsUsable args c h =
      let (v, p, q) = >>=-eq-ok (parse_flags d args defaults) build h in
      let (level, a, b) =
        >>=-eq-ok (parse_log_level v.log_level)
          (λ level.
            validate_token_source (record { endpoint = v.dpf_endpoint; token_file = v.token_file })
            >> (validate_otlp_protocol v.otlp_protocol >> ok (settings_of v level)))
          q in
      let (u, x, y) =
        >>=-eq-ok
          (validate_token_source (record { endpoint = v.dpf_endpoint; token_file = v.token_file }))
          (λ u. validate_otlp_protocol v.otlp_protocol >> ok (settings_of v level)) b in
      let (w, z, e) =
        >>=-eq-ok (validate_otlp_protocol v.otlp_protocol) (λ w. ok (settings_of v level)) y in
      let read : HasCanonical d laws v =
        subst (Loads d laws) p (parse_flags-Loads d laws args defaults tt) in
      subst IsUsable (ok-injective e) (
        token_given _ x,
        protocol_served v.otlp_protocol z,
        All-of_mem (IsCanonical d) (settings_of v level).scope.domains (λ n m.
            All-mem (IsCanonical d) read (mem_of_keep (λ n. not (is_zero n)) v.domains m).0),
      )

  -- Whatever the arguments, a load that fails reports a missing setting, an invalid one, or a
  -- request for help.
  load-IsReported : (args : List Text) → OnError IsReported (load d args)
  unfolding load
  load-IsReported args =
      go (parse_flags d args defaults) (parse_flags-Loads d laws args defaults tt)
    where
      go : (m : Result Values) → Loads d laws m → OnError IsReported (m >>= build)
      go (ok v) h = build-IsReported v
      go (err e) h = h
