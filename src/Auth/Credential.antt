-- ===== src/Auth/Credential.antt =====
-- Who is let in: exactly the requests that present one configured key as a bearer credential.
use c_item.Base.{
  ℕ, zero, suc, ◌≤◌, ◌<◌, ◌≡◌, ◌↔◌, refl, sym, ap, subst, ◌∙◌, inl, inr, Bool, true, false, ◌||◌,
  Option, none, some, some_inj, List, [], ◌∷◌, ◌++◌, arith, ltb, ◌==◌, ==_iff, Bool-cases,
  Option-cases, and_true, length, take, drop, take-append, drop-append, get_elem?, replicate,
}
use c_item.Base.Text.{
  codes, eq_bytes, eq_bytes_iff, find_byte, find_byte_found, find_byte-append, all_bytes,
}
use c_item.Config.{ApiKeyAuthConfig, ApiKeyDigest}
use c_item.Handler.{HttpRequest}
use c_item.Auth.{
  upper_digit_or_underscore, key_byte, valid_api_key, match_digests, matches_api_key_digest,
  to_lower, iequals, authorizations, skip_spaces, bearer_credential, check_credential,
  authenticate_value, authenticate_only, authenticate_api_key,
}

-- The digest is one of the first `n`.
abbrev pub Among : List ApiKeyDigest → ℕ → ApiKeyDigest → Type 0
Among digests n candidate = (i : ℕ) × (i < n) × (get_elem? digests i ≡ some candidate)

match_digests_kept :
    (ds : List ApiKeyDigest) (n : ℕ) (c : ApiKeyDigest) → match_digests ds n c true ≡ true
unfolding match_digests
match_digests_kept ds zero c = refl
match_digests_kept [] (suc n) c = refl
match_digests_kept (d ∷ ds) (suc n) c = match_digests_kept ds n c

match_digests-Among :
    (ds : List ApiKeyDigest) (n : ℕ) (c : ApiKeyDigest)
    → match_digests ds n c false ≡ true
    → Among ds n c
unfolding match_digests
match_digests-Among ds zero c e = cc
match_digests-Among [] (suc n) c e = cc
match_digests-Among (d ∷ ds) (suc n) c e = elim (Bool-cases (eq_bytes d c)) [
  | inl f ↦ (0, omega arith, ap some ((eq_bytes_iff d c).0 f))
  | inr f ↦ let (i, b, g) = match_digests-Among ds n c (rw f at e) in (suc i, omega arith, g)
]

Among-match_digests :
    (ds : List ApiKeyDigest) (n i : ℕ) (c : ApiKeyDigest)
    → i < n
    → get_elem? ds i ≡ some c
    → (m : Bool) → match_digests ds n c m ≡ true
unfolding match_digests
Among-match_digests ds zero i c b e m = absurd (omega arith)
Among-match_digests [] (suc n) i c b e m = cc
Among-match_digests (d ∷ ds) (suc n) zero c b e m =
    let f : eq_bytes d c ≡ true = (eq_bytes_iff d c).1 (some_inj e) in
    let g : (m || true) ≡ true = ground arith in rw (f, g) (match_digests_kept ds n c)
Among-match_digests (d ∷ ds) (suc n) (suc i) c b e m =
    Among-match_digests ds n i c (omega arith) e (m || eq_bytes d c)

-- A configuration with keys, none of them missing, accepts a digest exactly when it is one of the
-- configured ones, wherever it stands.
pub matches_api_key_digest_iff :
    (config : ApiKeyAuthConfig) (c : ApiKeyDigest)
    → 0 < config.key_count
    → config.key_count ≤ length config.digests
    → (matches_api_key_digest config c ≡ true) ↔ Among config.digests config.key_count c
unfolding matches_api_key_digest
matches_api_key_digest_iff config c h k =
    let some_keys : (config.key_count == 0) ≡ false = ground arith in
    let all_there : ltb (length config.digests) config.key_count ≡ false = ground arith in
    rw (some_keys, all_there)
      (
        λ e. match_digests-Among config.digests config.key_count c e,
        λ (i, b, g). Among-match_digests config.digests config.key_count i c b g false,
      )

-- A field's value presents a key: a scheme that reads Bearer in any case, spaces, and the key.
abbrev pub Presents : List ℕ → List ℕ → Type 0
Presents value key =
    (scheme : List ℕ) × (n : ℕ) × (value ≡ scheme ++ b' ' ∷ (replicate n b' ' ++ key))
    × (iequals scheme (codes "Bearer") ≡ true)

skip_spaces_found :
    (s key : List ℕ) → skip_spaces s ≡ some key → (n : ℕ) × (s ≡ replicate n b' ' ++ key)
unfolding skip_spaces
skip_spaces_found [] key e = cc
skip_spaces_found (c ∷ s) key e = elim (Bool-cases (c == b' ')) [
  | inl f ↦
      let (n, g) = skip_spaces_found s key (rw f at e) in
      let same : c ≡ b' ' = (==_iff c b' ').0 f in
      (suc n, ap (λ t. c ∷ t) g ∙ ap (λ x. x ∷ (replicate n b' ' ++ key)) same)
  | inr f ↦ (0, some_inj (rw f at e))
]

skip_spaces-replicate : (n : ℕ) (s : List ℕ) → skip_spaces (replicate n b' ' ++ s) ≡ skip_spaces s
unfolding skip_spaces
skip_spaces-replicate zero s = refl
skip_spaces-replicate (suc n) s = skip_spaces-replicate n s

skip_spaces_key : (key : List ℕ) → valid_api_key key ≡ true → skip_spaces key ≡ some key
unfolding valid_api_key key_byte upper_digit_or_underscore skip_spaces all_bytes
skip_spaces_key [] e = cc
skip_spaces_key (c ∷ key) e = let f : (c == b' ') ≡ false = ground arith in rw f refl

letter_not_space :
    (x y : ℕ) → (y == b' ') ≡ false → (to_lower x == to_lower y) ≡ true → (x == b' ') ≡ false
letter_not_space x y e f = ground arith

iequals_no_space :
    (s t : List ℕ) → iequals s t ≡ true → find_byte b' ' t ≡ none → find_byte b' ' s ≡ none
unfolding iequals find_byte
iequals_no_space [] t e f = refl
iequals_no_space (x ∷ s) [] e f = cc
iequals_no_space (x ∷ s) (y ∷ t) e f =
    let (p, q) : ((to_lower x == to_lower y) ≡ true) × (iequals s t ≡ true) =
      and_true (to_lower x == to_lower y) (iequals s t) e in
    elim (Bool-cases (y == b' ')) [
      | inl g ↦ cc (rw g at f)
      | inr g ↦ elim (Option-cases (find_byte b' ' t)) [
        | inl h ↦ rw (letter_not_space x y g p, iequals_no_space s t q h) refl
        | inr (j, h) ↦ cc (rw (g, h) at f)
      ]
    ]

bearer_credential-Presents :
    (value key : List ℕ) → bearer_credential value ≡ some key → Presents value key
unfolding bearer_credential
bearer_credential-Presents value key e = elim (Option-cases (find_byte b' ' value)) [
  | inl f ↦ cc (rw (f, bearer_credential) at e)
  | inr (i, f) ↦ elim (Bool-cases (iequals (take i value) (codes "Bearer"))) [
    | inr g ↦ cc (rw (f, g, bearer_credential) at e)
    | inl g ↦
        let (p, q) = find_byte_found b' ' value i f in
        let (n, m) =
          skip_spaces_found (drop (suc i) value) key (rw (f, g, q, bearer_credential) at e) in
        (take i value, n, p ∙ ap (λ t. take i value ++ b' ' ∷ t) m, g)
  ]
]

no_space_in_bearer : find_byte b' ' (codes "Bearer") ≡ none
unfolding find_byte
no_space_in_bearer = refl

Presents-bearer_credential :
    (value key : List ℕ)
    → Presents value key
    → valid_api_key key ≡ true
    → bearer_credential value ≡ some key
unfolding bearer_credential
Presents-bearer_credential value key (scheme, n, e, f) h =
    let none_before : find_byte b' ' scheme ≡ none =
      iequals_no_space scheme (codes "Bearer") f no_space_in_bearer in
    subst (λ v. bearer_credential v ≡ some key) (sym e)
      (rw
        (
          find_byte-append b' ' scheme (replicate n b' ' ++ key) none_before,
          take-append scheme (b' ' ∷ (replicate n b' ' ++ key)),
          f,
          drop-append scheme (b' ' ∷ (replicate n b' ' ++ key)),
          bearer_credential,
        )
        (skip_spaces-replicate (suc n) key ∙ skip_spaces_key key h))

module _ (hash_api_key : List ℕ → Option ApiKeyDigest) (config : ApiKeyAuthConfig) where
  check_credential_granted :
      (key : List ℕ)
      → check_credential hash_api_key config key ≡ some true
      → (valid_api_key key ≡ true)
        × (d : ApiKeyDigest) × (hash_api_key key ≡ some d)
        × (matches_api_key_digest config d ≡ true)
  unfolding check_credential
  check_credential_granted key e = elim (Bool-cases (valid_api_key key)) [
    | inr f ↦ cc (rw (f, check_credential) at e)
    | inl f ↦ elim (Option-cases (hash_api_key key)) [
      | inl g ↦ cc (rw (f, g, check_credential) at e)
      | inr (d, g) ↦ (f, d, g, some_inj (rw (f, g, check_credential) at e))
    ]
  ]

  -- What a request must present: in its only authorization field a key that is valid, whose digest is
  -- among the configured ones.
  abbrev pub Authentic : HttpRequest → Type 0
  Authentic request =
      (value : List ℕ) × (key : List ℕ) × (d : ApiKeyDigest) × (authorizations request.fields
        ≡ value ∷ [])
      × Presents value key
      × (valid_api_key key ≡ true)
      × (hash_api_key key ≡ some d)
      × Among config.digests config.key_count d

  module _ (h : 0 < config.key_count) (k : config.key_count ≤ length config.digests) where
    authenticate_value_granted :
        (value : List ℕ)
        → authenticate_value hash_api_key config value ≡ some true
        → (key : List ℕ) × (d : ApiKeyDigest) × Presents value key
          × (valid_api_key key ≡ true)
          × (hash_api_key key ≡ some d)
          × Among config.digests config.key_count d
    unfolding authenticate_value
    authenticate_value_granted value e = elim (Option-cases (bearer_credential value)) [
      | inl f ↦ cc (rw (f, authenticate_value) at e)
      | inr (key, f) ↦
          let (v, d, g, m) = check_credential_granted key (rw (f, authenticate_value) at e) in
          (
            key,
            d,
            bearer_credential-Presents value key f,
            v,
            g,
            (matches_api_key_digest_iff config d h k).0 m,
          )
    ]

    authenticate_only_granted :
        (values : List (List ℕ))
        → authenticate_only hash_api_key config values ≡ some true
        → (value : List ℕ) × (values ≡ value ∷ [])
          × (authenticate_value hash_api_key config value ≡ some true)
    unfolding authenticate_only
    authenticate_only_granted [] e = cc
    authenticate_only_granted (value ∷ []) e = (value, refl, e)
    authenticate_only_granted (value ∷ other ∷ values) e = cc

    pub grant :
        (value key : List ℕ) (d : ApiKeyDigest)
        → Presents value key
        → valid_api_key key ≡ true
        → hash_api_key key ≡ some d
        → Among config.digests config.key_count d
        → authenticate_value hash_api_key config value ≡ some true
    unfolding authenticate_value check_credential
    grant value key d p v g m =
        rw
          (
            authenticate_value,
            Presents-bearer_credential value key p v,
            check_credential,
            v,
            g,
            (matches_api_key_digest_iff config d h k).1 m,
          )
          refl

    -- A route that has keys lets in exactly the requests with one authorization field, which is the
    -- scheme Bearer in any case, one space or more, and a valid key whose digest is among the route's.
    pub authenticate_api_key_iff :
        (request : HttpRequest)
        → (authenticate_api_key hash_api_key config request ≡ some true) ↔ Authentic request
    unfolding authenticate_api_key authenticate_only
    authenticate_api_key_iff request = (
      λ e.
          let (value, f, g) = authenticate_only_granted (authorizations request.fields) e in
          let (key, d, p, v, m, a) = authenticate_value_granted value g in
          (value, key, d, f, p, v, m, a),
      λ (value, key, d, f, p, v, m, a).
          subst (λ vs. authenticate_only hash_api_key config vs ≡ some true) (sym f)
            (grant value key d p v m a),
    )
