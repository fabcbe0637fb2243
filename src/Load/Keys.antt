-- ===== src/Load/Keys.antt =====
-- The keys of a route that is accepted: 1 to 4 digests, no two equal, in the order of the
-- references, and each reference's key is accepted afterwards.
use c_item.Base.{
  ℕ, suc, ◌<◌, ◌≡◌, refl, sym, subst, ap, ◌∙◌, inl, inr, false, ◌++◌, Option, some, List, [], ◌∷◌,
  length, ltb, ◌||◌, arith, Option-cases,
}
use c_item.Base.Text.{codes}
use c_item.Config.{ApiKeyDigest, ApiKeyAuthConfig, max_keys}
use c_item.Auth.{iequals}
use c_item.Auth.Credential.{grant}
use c_item.Load.Result.{ok, bind-eq-ok, throw_if-passed, ok_inj}
use c_item.Load.Bounds.{OneTo}
use c_item.Load.Scalar.{is_empty, Environment}
use c_item.Load.Json.{Json, Members, lookup, as_object}
use c_item.Load.Checks.{optionally-valid}
use c_item.Load.Settings.{
  read_references, read_auth_references, configure_keys, no_keys, read_auth, parse_auth,
}
use c_item.Load.Valid.{Optional, AuthIsValid}
use c_item.Load.Placed.{
  KeysInvariant, InOrder-map, InOrder, KeyAt, Accepts, demand-eq-ok, configure_keys-Configured,
}

length-read_references :
    (vs : List Json) (refs : List (List ℕ)) → read_references vs ≡ ok refs → length refs ≡ length vs
unfolding read_references
length-read_references [] refs e = ap length (sym (ok_inj e))
length-read_references (v ∷ vs) refs e =
    let (reference, got, e) = bind-eq-ok _ _ e in
    let (some_byte, got, e) = bind-eq-ok _ _ e in
    let (rest, later, e) = bind-eq-ok _ _ e in
    ap length (sym (ok_inj e)) ∙ ap suc (length-read_references vs rest later)

few_values :
    (vs : List Json) (refs : List (List ℕ))
    → length refs ≡ length vs
    → (is_empty vs || ltb max_keys (length vs)) ≡ false
    → OneTo max_keys (length refs)
few_values [] refs h e = cc
few_values (v ∷ vs) refs h e = (ground (arith, h), ground (arith, h))

read_auth_references-few :
    (settings : Members) (refs : List (List ℕ))
    → read_auth_references settings ≡ ok refs
    → OneTo max_keys (length refs)
unfolding read_auth_references
read_auth_references-few settings refs e =
    elim (Option-cases (lookup (codes "api_key_env") settings)) [
      | inl f ↦
          let (envs, got, e) = bind-eq-ok _ _ (rw (f, read_auth_references) at e) in
          let (values, got, e) = bind-eq-ok _ _ e in
          let (few, size, e) = bind-eq-ok _ _ e in
          few_values values refs (length-read_references values refs e) (throw_if-passed _ _ size)
      | inr (v, f) ↦
          let (reference, got, e) = bind-eq-ok _ _ (rw (f, read_auth_references) at e) in
          subst (λ refs. OneTo max_keys (length refs)) (ok_inj e) (omega arith, omega arith)
    ]

no_keys-KeysInvariant : KeysInvariant no_keys
no_keys-KeysInvariant = record {
  room = refl;
  few = omega arith;
  different = λ i j d b b' f g. absurd (omega arith);
}

-- The keys of a route: 1 to 4 digests, no two equal, one for each reference, in the order of the
-- references, and the key of every reference is let in.
pub record KeysOf (env : Environment) (hash_api_key : List ℕ → Option ApiKeyDigest)
    (c : ApiKeyAuthConfig) (references : List (List ℕ)) : Type 0 where
  pub keys_valid : AuthIsValid c
  pub one_each : c.key_count ≡ length references
  pub accepted : InOrder (Accepts env hash_api_key c) 0 references

-- A digest below the count is let in by its key.
KeyAt-Accepts :
    (env : Environment) (hash_api_key : List ℕ → Option ApiKeyDigest) (c : ApiKeyAuthConfig)
    → KeysInvariant c
    → (i : ℕ) (reference : List ℕ) → i < c.key_count
    → KeyAt env hash_api_key c i reference
    → Accepts env hash_api_key c i reference
unfolding iequals
KeyAt-Accepts env hash_api_key c v i reference b (key, d, found, valid, hashed, place) = (
  key,
  d,
  found,
  hashed,
  place,
  grant hash_api_key c (omega arith) (omega (arith, v.room, v.few)) (codes "Bearer " ++ key) key d
      (codes "Bearer", 0, refl, refl) valid hashed (i, b, place),
)

configure_keys-KeysOf :
    (env : Environment) (hash_api_key : List ℕ → Option ApiKeyDigest) (c : ApiKeyAuthConfig)
    (references : List (List ℕ))
    → OneTo max_keys (length references)
    → configure_keys env hash_api_key [] no_keys references ≡ ok c
    → KeysOf env hash_api_key c references
configure_keys-KeysOf env hash_api_key c references (least, most) e =
    let r =
      configure_keys-Configured env hash_api_key references [] no_keys c no_keys-KeysInvariant
        (omega arith) e in
    record {
      keys_valid = record {
        room = r.invariant.room;
        counted = (omega (arith, r.counted), r.invariant.few);
        different = r.invariant.different;
      };
      one_each = omega (arith, r.counted);
      accepted =
          InOrder-map _ _ c.key_count 0 references (omega (arith, r.counted))
            (KeyAt-Accepts env hash_api_key c r.invariant) r.placed;
    }

-- An auth setting that is accepted names 1 to 4 references; the configuration holds the digests of
-- the keys that they name, in the order of the references and no two of them equal, and the routine
-- that authenticates lets in each of these keys as a bearer credential.
pub read_auth-KeysOf :
    (env : Environment) (hash_api_key : List ℕ → Option ApiKeyDigest) (v : Json)
    (c : ApiKeyAuthConfig)
    → read_auth env hash_api_key v ≡ ok c
    → (settings : Members) × (references : List (List ℕ)) × (as_object v ≡ some settings)
      × (read_auth_references settings ≡ ok references)
      × KeysOf env hash_api_key c references
unfolding read_auth
read_auth-KeysOf env hash_api_key v c e =
    let (settings, object, e) = bind-eq-ok _ _ e in
    let (shape, got, e) = bind-eq-ok _ _ e in
    let (references, read, e) = bind-eq-ok _ _ e in
    (
      settings,
      references,
      demand-eq-ok (as_object v) _ object,
      read,
      configure_keys-KeysOf env hash_api_key c references
          (read_auth_references-few settings references read) e,
    )

pub parse_auth-valid :
    (env : Environment) (hash_api_key : List ℕ → Option ApiKeyDigest) (entry : Members)
    (r : Option ApiKeyAuthConfig)
    → parse_auth env hash_api_key entry ≡ ok r
    → Optional AuthIsValid r
unfolding parse_auth
parse_auth-valid env hash_api_key entry r e =
    optionally-valid AuthIsValid (read_auth env hash_api_key)
      (λ v c f.
        let (s, refs, object, read, k) = read_auth-KeysOf env hash_api_key v c f in k.keys_valid)
      _ r e
