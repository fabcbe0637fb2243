-- ===== src/Load/Complete.antt =====
-- Every configuration that loads is valid, whatever the environment holds.
use c_item.Base.{ℕ, ◌≤◌, ◌≡◌, refl, subst, inl, inr, List, arith, Option-cases}
use c_item.Base.Text.{codes, all_bytes}
use c_item.Base.Decimal.{from_chars}
use c_item.Config.{AppConfig, LogLevel}
use c_item.Load.Result.{Result, ok, Post-ok, bind-eq-ok, throw_if-passed, ok_inj}
use c_item.Load.Bounds.{OneTo, from_one_to-Post, parse_listen_port-Post}
use c_item.Load.Scalar.{
  unsigned_max, uint64_max, isalnum, Environment, validate_label, label_byte, parse_capacity_limit,
  parse_max_in_flight_bytes, parse_bounded_milliseconds, parse_upstream_port,
}
use c_item.Load.Routes.{Libraries}
use c_item.Load.App.{
  setting, parse_label, load_labels, load_listener, Limits, load_limits, load_settings,
}
use c_item.Load.Valid.{SettingsAreValid, IsShortLabel}

-- A setting satisfies what its default and everything that is read for it satisfy.
setting-valid {ℓ κ} :
    {A : Type ℓ} (P : A → Type κ) (env : Environment) (name : List ℕ) (default : A)
    (read : List ℕ → Result A)
    → P default
    → ((text : List ℕ) (a : A) → read text ≡ ok a → P a)
    → (a : A) → setting env name default read ≡ ok a
    → P a
unfolding setting
setting-valid P env name default read d r a e =
    let (value, got, e) = bind-eq-ok _ _ e in
    elim (Option-cases value) [
      | inl f ↦ subst P (ok_inj (simp f at e)) d
      | inr (text, f) ↦ r text a (simp f at e)
    ]

parse_label-valid : (name text s : List ℕ) → parse_label name text ≡ ok s → IsShortLabel s
unfolding parse_label validate_label
parse_label-valid name text s e =
    let (fit, shape, e) = bind-eq-ok _ _ e in
    let fits = throw_if-passed _ _ shape in
    subst IsShortLabel (ok_inj e) (ground (arith, fits), ground (arith, fits))

abbrev LabelsAreValid : List ℕ × List ℕ × LogLevel → Type 0
LabelsAreValid (name, environment, level) = IsShortLabel name × IsShortLabel environment

default_name-IsShortLabel : IsShortLabel (codes "api-gate")
unfolding all_bytes label_byte isalnum
default_name-IsShortLabel = (omega arith, refl)

default_environment-IsShortLabel : IsShortLabel (codes "development")
unfolding all_bytes label_byte isalnum
default_environment-IsShortLabel = (omega arith, refl)

load_labels-valid :
    (env : Environment) (l : List ℕ × List ℕ × LogLevel) → load_labels env ≡ ok l → LabelsAreValid l
unfolding load_labels
load_labels-valid env l e =
    let (name, n, e) = bind-eq-ok _ _ e in
    let (environment, v, e) = bind-eq-ok _ _ e in
    let (level, got, e) = bind-eq-ok _ _ e in
    subst LabelsAreValid (ok_inj e) (
      setting-valid IsShortLabel env _ (codes "api-gate") _ default_name-IsShortLabel
          (parse_label-valid _) name n,
      setting-valid IsShortLabel env _ (codes "development") _ default_environment-IsShortLabel
          (parse_label-valid _) environment v,
    )

parse_capacity_limit-valid :
    (name text : List ℕ) (n : ℕ) → parse_capacity_limit text name ≡ ok n → OneTo 65535 n
unfolding parse_capacity_limit
parse_capacity_limit-valid name text n e =
    Post-ok (OneTo 65535) _ (from_one_to-Post 65535 _ (from_chars unsigned_max text)) e

pub parse_bounded_milliseconds-valid :
    (name text : List ℕ) (n : ℕ) → parse_bounded_milliseconds text name ≡ ok n → OneTo 60000 n
unfolding parse_bounded_milliseconds
parse_bounded_milliseconds-valid name text n e =
    Post-ok (OneTo 60000) _ (from_one_to-Post 60000 _ (from_chars unsigned_max text)) e

parse_max_in_flight_bytes-valid :
    (text : List ℕ) (n : ℕ) → parse_max_in_flight_bytes text ≡ ok n → OneTo 1073741824 n
unfolding parse_max_in_flight_bytes
parse_max_in_flight_bytes-valid text n e =
    Post-ok (OneTo 1073741824) _ (from_one_to-Post 1073741824 _ (from_chars uint64_max text)) e

pub parse_upstream_port-valid :
    (text : List ℕ) (n : ℕ) → parse_upstream_port text ≡ ok n → OneTo 65535 n
unfolding parse_upstream_port
parse_upstream_port-valid text n e =
    Post-ok (OneTo 65535) _ (from_one_to-Post 65535 _ (from_chars unsigned_max text)) e

record LimitsAreValid (l : Limits) : Type 0 where
  connections_valid : OneTo 65535 l.connections
  proxies_valid : OneTo 65535 l.proxies
  bytes_valid : OneTo 1073741824 l.bytes
  grace_valid : OneTo 60000 l.grace

load_limits-valid : (env : Environment) (l : Limits) → load_limits env ≡ ok l → LimitsAreValid l
unfolding load_limits
load_limits-valid env l e =
    let (connections, c, e) = bind-eq-ok _ _ e in
    let (proxies, p, e) = bind-eq-ok _ _ e in
    let (bytes, b, e) = bind-eq-ok _ _ e in
    let (grace, g, e) = bind-eq-ok _ _ e in
    subst LimitsAreValid (ok_inj e) (record {
      connections_valid =
          setting-valid (OneTo 65535) env _ 256 _ (omega arith, omega arith)
            (parse_capacity_limit-valid _) connections c;
      proxies_valid =
          setting-valid (OneTo 65535) env _ 32 _ (omega arith, omega arith)
            (parse_capacity_limit-valid _) proxies p;
      bytes_valid =
          setting-valid (OneTo 1073741824) env _ 67108864 _ (omega arith, omega arith)
            parse_max_in_flight_bytes-valid bytes b;
      grace_valid =
          setting-valid (OneTo 60000) env _ 5000 _ (omega arith, omega arith)
            (parse_bounded_milliseconds-valid _) grace g;
    })

abbrev ListenerIsValid : List ℕ × ℕ → Type 0
ListenerIsValid (address, port) = port ≤ 65535

load_listener-valid :
    (libraries : Libraries) (env : Environment) (l : List ℕ × ℕ)
    → load_listener libraries env ≡ ok l
    → ListenerIsValid l
unfolding load_listener
load_listener-valid libraries env l e =
    let (address, a, e) = bind-eq-ok _ _ e in
    let (port, p, e) = bind-eq-ok _ _ e in
    subst ListenerIsValid (ok_inj e) (
      setting-valid (λ (n : ℕ). n ≤ 65535) env _ 8080 _ (omega arith)
        (λ text n f. Post-ok (λ (n : ℕ). n ≤ 65535) _ (parse_listen_port-Post text) f) port p)

pub load_settings-valid :
    (libraries : Libraries) (env : Environment) (c : AppConfig)
    → load_settings libraries env ≡ ok c
    → SettingsAreValid c
unfolding load_settings
load_settings-valid libraries env c e =
    let (server, got, e) = bind-eq-ok _ _ e in
    let (switches, got, e) = bind-eq-ok _ _ e in
    let (labels, l, e) = bind-eq-ok _ _ e in
    let (listener, p, e) = bind-eq-ok _ _ e in
    let (limits, m, e) = bind-eq-ok _ _ e in
    let (name, environment) = load_labels-valid env labels l in
    let v = load_limits-valid env limits m in
    subst SettingsAreValid (ok_inj e) (record {
      name_valid = name;
      environment_valid = environment;
      port_valid = load_listener-valid libraries env listener p;
      connections_valid = v.connections_valid;
      proxies_valid = v.proxies_valid;
      bytes_valid = v.bytes_valid;
      grace_valid = v.grace_valid;
      no_upstream = refl;
      no_routes = refl;
    })
