-- ===== src/Load/Result.antt =====
-- Results that a configuration function returns or throws as a ConfigError.
use c_item.Base.{ℕ, Bool, true, false, Option, none, some, List, ◌≡◌, refl, if◌then◌else◌, subst}

-- One constructor per message; a message about a variable carries the variable's name.
pub data ConfigError : Type 0 where
  empty_variable bad_label bad_capacity bad_milliseconds bad_switch : List ℕ → ConfigError
  bad_log_level bad_listen_address bad_listen_port bad_upstream_port : ConfigError
  bad_in_flight_bytes bad_upstream_host bad_prefix_start bad_prefix_segment : ConfigError
  bad_integer integer_out_of_range bad_upstream bad_route_host bad_scheme : ConfigError
  document_too_long nested_array bad_key_references too_many_routes : ConfigError
  too_many_upstreams nested_object unknown_auth_field duplicate_field : ConfigError
  invalid_json bad_document bad_entry unknown_field bad_prefix duplicate_prefix : ConfigError
  conflicting_upstreams bad_upstreams bad_upstream_entry unknown_upstream_field : ConfigError
  bad_strip_prefix bad_rate_limit bad_health_check unknown_health_field : ConfigError
  bad_health_path health_out_of_range timeout_exceeds_interval bad_auth : ConfigError
  bad_reference_string invalid_reference duplicate_keys missing_key hash_failed : ConfigError
  bad_stream_response conflicting_variables unprotected_routes incomplete_upstream : ConfigError
  tls_pair tls_empty tls_failed trust_failed : ConfigError

-- What a call does: it throws, or it returns a value.
pub data Result {ℓ} (X : Type ℓ) : Type ℓ where
  throws : ConfigError → Result X
  ok : X → Result X

-- The test of an `if` whose body throws.
abbrev pub throw_if : Bool → ConfigError → Result (Unit {0})
throw_if bad why = if bad then throws why else ok tt

-- The rest of a function behind a call in it, which may throw.
infixl 5 ◌>>=◌
unfoldable pub ◌>>=◌ {ℓ ν} : {X : Type ℓ} {Y : Type ν} → Result X → (X → Result Y) → Result Y
throws why >>= rest = throws why
ok x >>= rest = rest x

infixl 5 ◌>>◌
abbrev pub ◌>>◌ {ν} : {Y : Type ν} → Result (Unit {0}) → Result Y → Result Y
call >> rest = call >>= λ returned. rest

-- What holds of the value of a call that returns.
abbrev pub Post {ℓ κ} : {A : Type ℓ} → (A → Type κ) → Result A → Type κ
Post P (ok a) = P a
Post P (throws e) = Unit {κ}

pub ok_inj {ℓ} : {A : Type ℓ} {a b : A} → ok a ≡ ok b → a ≡ b
ok_inj h = cc

pub Post-ok {ℓ κ} : {A : Type ℓ} (P : A → Type κ) (m : Result A) {a : A} → Post P m → m ≡ ok a → P a
Post-ok P (ok b) h e = subst P (ok_inj e) h
Post-ok P (throws x) h e = cc

pub Post-if {ℓ κ} :
    {B : Type ℓ} (Q : B → Type κ) (b : Bool) (m k : Result B)
    → (b ≡ true → Post Q m)
    → (b ≡ false → Post Q k)
    → Post Q (if b then m else k)
Post-if Q true m n h k = h refl
Post-if Q false m n h k = k refl

-- A call whose value is not constrained.
pub Post-free {ℓ κ μ} :
    {A : Type ℓ} {B : Type κ} (Q : B → Type μ) (m : Result A) (f : A → Result B)
    → ((a : A) → m ≡ ok a → Post Q (f a))
    → Post Q (m >>= f)
unfolding ◌>>=◌
Post-free Q (ok a) f h = h a refl
Post-free Q (throws e) f h = tt

pub Post-elim {ℓ κ μ} :
    {A : Type ℓ} {B : Type κ} (Q : B → Type μ) (o : Option A) (m : Result B) (f : A → Result B)
    → (o ≡ none → Post Q m)
    → ((a : A) → o ≡ some a → Post Q (f a))
    → Post Q (elim o [ none ↦ m | some a ↦ f a ])
Post-elim Q none m f h k = h refl
Post-elim Q (some a) m f h k = k a refl

pub bind-eq-ok {ℓ ν} :
    {X : Type ℓ} {Y : Type ν} {y : Y} (call : Result X) (rest : X → Result Y)
    → (call >>= rest) ≡ ok y
    → (x : X) × (call ≡ ok x) × (rest x ≡ ok y)
unfolding ◌>>=◌
bind-eq-ok (throws why) rest h = cc
bind-eq-ok (ok x) rest h = (x, refl, h)

pub throw_if-passed :
    (b : Bool) (why : ConfigError) {u : Unit {0}} → throw_if b why ≡ ok u → b ≡ false
throw_if-passed true why e = cc
throw_if-passed false why e = refl
