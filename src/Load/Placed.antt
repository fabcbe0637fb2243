-- ===== src/Load/Placed.antt =====
-- src/config.cpp, parse_routes: the loop over the references of a route puts the digest of each key
-- at the next index.
use c_item.Base.{
  ℕ, suc, ◌+◌, ◌<◌, ◌≤◌, ◌≡◌, sym, subst, ◌∙◌, inl, inr, true, false, ◌++◌, Option, none, some,
  List, [], ◌∷◌, length, ltb, arith, Bool-cases, get_elem?, set, length-set, get_elem?-set_self,
  get_elem?-set_ne,
}
use c_item.Base.Text.{codes}
use c_item.Config.{ApiKeyDigest, ApiKeyAuthConfig, max_keys}
use c_item.Auth.{matches_api_key_digest, valid_api_key, authenticate_value}
use c_item.Auth.Credential.{Among, matches_api_key_digest_iff}
use c_item.Load.Result.{ConfigError, ok, bind-eq-ok, throw_if-passed, ok_inj}
use c_item.Load.Scalar.{Environment}
use c_item.Load.Json.{demand}
use c_item.Load.Settings.{reference_digest, push_digest, configure_keys}

pub record KeysInvariant (c : ApiKeyAuthConfig) : Type 0 where
  pub room : length c.digests ≡ max_keys
  pub few : c.key_count ≤ max_keys
  pub different :
      (i j : ℕ) (d : ApiKeyDigest)
      → i < c.key_count
      → j < c.key_count
      → get_elem? c.digests i ≡ some d
      → get_elem? c.digests j ≡ some d
      → i ≡ j

not-Among :
    (c : ApiKeyAuthConfig) (d : ApiKeyDigest)
    → c.key_count ≤ length c.digests
    → matches_api_key_digest c d ≡ false
    → ¬ (Among c.digests c.key_count d)
not-Among c d h e (i, b, g) = cc ((matches_api_key_digest_iff c d (omega arith) h).1 (i, b, g))

-- An earlier digest keeps its place.
kept_digest :
    (c : ApiKeyAuthConfig) (d e : ApiKeyDigest) (i : ℕ)
    → i < c.key_count
    → get_elem? (push_digest c d).digests i ≡ some e
    → get_elem? c.digests i ≡ some e
unfolding push_digest
kept_digest c d e i b h =
    sym (get_elem?-set_ne c.digests c.key_count i d (λ q. absurd (omega arith))) ∙ h

-- The new digest differs from the earlier ones, so that nothing else holds it.
new_digest :
    (c : ApiKeyAuthConfig) (d e : ApiKeyDigest) (i j : ℕ)
    → KeysInvariant c
    → c.key_count < max_keys
    → matches_api_key_digest c d ≡ false
    → i ≡ c.key_count
    → j < c.key_count
    → get_elem? (push_digest c d).digests i ≡ some e
    → get_elem? (push_digest c d).digests j ≡ some e
    → i ≡ j
unfolding push_digest
new_digest c d e i j v few m at_end b f g =
    let here : get_elem? (set c.digests c.key_count d) c.key_count ≡ some d =
      get_elem?-set_self c.digests c.key_count d (omega (arith, v.room)) in
    let same : some d ≡ some e =
      sym here ∙ subst (λ k. get_elem? (set c.digests c.key_count d) k ≡ some e) at_end f in
    absurd
      (not-Among c d (omega (arith, v.room, v.few)) m (j, b, kept_digest c d e j b g ∙ sym same))

push_digest-KeysInvariant :
    (c : ApiKeyAuthConfig) (d : ApiKeyDigest)
    → KeysInvariant c
    → c.key_count < max_keys
    → matches_api_key_digest c d ≡ false
    → KeysInvariant (push_digest c d)
unfolding push_digest
push_digest-KeysInvariant c d v h m = record {
  room = length-set c.digests c.key_count d ∙ v.room;
  few = omega arith;
  different = λ i j e b b' f g. elim (Bool-cases (ltb i c.key_count)) [
    | inl i_old ↦ elim (Bool-cases (ltb j c.key_count)) [
      | inl j_old ↦
          v.different i j e (ground arith) (ground arith) (kept_digest c d e i (ground arith) f)
            (kept_digest c d e j (ground arith) g)
      | inr j_new ↦ sym (new_digest c d e j i v h m (ground arith) (ground arith) g f)
    ]
    | inr i_new ↦ elim (Bool-cases (ltb j c.key_count)) [
      | inl j_old ↦ new_digest c d e i j v h m (ground arith) (ground arith) f g
      | inr j_new ↦ ground arith
    ]
  ];
}

-- A reference names a key that is valid, and its digest stands at an index.
abbrev pub KeyAt :
    Environment → (List ℕ → Option ApiKeyDigest) → ApiKeyAuthConfig → ℕ → List ℕ → Type 0
KeyAt env hash_api_key c i reference =
    (key : List ℕ) × (d : ApiKeyDigest) × (env reference ≡ some key)
    × (valid_api_key key ≡ true)
    × (hash_api_key key ≡ some d)
    × (get_elem? c.digests i ≡ some d)

-- The references stand in the order of the indices.
abbrev pub InOrder : (ℕ → List ℕ → Type 0) → ℕ → List (List ℕ) → Type 0
InOrder At i [] = Unit {0}
InOrder At i (reference ∷ references) = At i reference × InOrder At (suc i) references

pub InOrder-map :
    (At Of : ℕ → List ℕ → Type 0) (n i : ℕ) (references : List (List ℕ))
    → i + length references ≤ n
    → ((j : ℕ) (reference : List ℕ) → j < n → At j reference → Of j reference)
    → InOrder At i references
    → InOrder Of i references
InOrder-map At Of n i [] h k v = tt
InOrder-map At Of n i (reference ∷ references) h k v =
    (k i reference (omega arith) v.0, InOrder-map At Of n (suc i) references (omega arith) k v.1)

-- The digest at an index is that of the key that a reference names, and the routine that
-- authenticates lets the key in as a bearer credential.
abbrev pub Accepts :
    Environment → (List ℕ → Option ApiKeyDigest) → ApiKeyAuthConfig → ℕ → List ℕ → Type 0
Accepts env hash_api_key c i reference =
    (key : List ℕ) × (d : ApiKeyDigest) × (env reference ≡ some key)
    × (hash_api_key key ≡ some d)
    × (get_elem? c.digests i ≡ some d)
    × (authenticate_value hash_api_key c (codes "Bearer " ++ key) ≡ some true)

pub demand-eq-ok {ℓ} :
    {A : Type ℓ} (o : Option A) (why : ConfigError) {a : A} → demand o why ≡ ok a → o ≡ some a
demand-eq-ok none why e = cc
demand-eq-ok (some a) why e = cc

push_digest_count :
    (c : ApiKeyAuthConfig) (d : ApiKeyDigest) (n : ℕ)
    → c.key_count + suc n ≤ max_keys
    → (push_digest c d).key_count + n ≤ max_keys
unfolding push_digest
push_digest_count c d n h = omega arith

module _ (env : Environment) (hash_api_key : List ℕ → Option ApiKeyDigest) where
  reference_digest-known :
      (unique : List (List ℕ)) (reference : List ℕ) (d : ApiKeyDigest)
      → reference_digest env hash_api_key unique reference ≡ ok d
      → (key : List ℕ) × (env reference ≡ some key)
        × (valid_api_key key ≡ true)
        × (hash_api_key key ≡ some d)
  unfolding reference_digest
  reference_digest-known unique reference d e =
      let (valid, got, e) = bind-eq-ok _ _ e in
      let (fresh, got, e) = bind-eq-ok _ _ e in
      let (key, found, e) = bind-eq-ok _ _ e in
      let (shape, got, e) = bind-eq-ok _ _ e in
      (
        key,
        demand-eq-ok (env reference) _ found,
        ground (arith, throw_if-passed _ _ got),
        demand-eq-ok (hash_api_key key) _ e,
      )

  -- What the loop over the references does to a configuration.
  pub record Configured (c r : ApiKeyAuthConfig) (references : List (List ℕ)) : Type 0 where
    pub invariant : KeysInvariant r
    pub counted : r.key_count ≡ c.key_count + length references
    pub kept :
        (i : ℕ) (d : ApiKeyDigest)
        → i < c.key_count
        → get_elem? c.digests i ≡ some d
        → get_elem? r.digests i ≡ some d
    pub placed : InOrder (KeyAt env hash_api_key r) c.key_count references

  Configured-cons :
      (c r : ApiKeyAuthConfig) (d : ApiKeyDigest) (reference : List ℕ) (references : List (List ℕ))
      (key : List ℕ)
      → KeysInvariant c
      → c.key_count < max_keys
      → env reference ≡ some key
      → valid_api_key key ≡ true
      → hash_api_key key ≡ some d
      → Configured (push_digest c d) r references
      → Configured c r (reference ∷ references)
  unfolding push_digest
  Configured-cons c r d reference references key v few found valid hashed rest =
      let here : get_elem? (set c.digests c.key_count d) c.key_count ≡ some d =
        get_elem?-set_self c.digests c.key_count d (omega (arith, v.room)) in
      record {
        invariant = rest.invariant;
        counted = omega (arith, rest.counted);
        kept = λ i x b g.
            rest.kept i x (omega arith)
              (get_elem?-set_ne c.digests c.key_count i d (λ q. absurd (omega arith)) ∙ g);
        placed = (
          (key, d, found, valid, hashed, rest.kept c.key_count d (omega arith) here),
          subst (λ n. InOrder (KeyAt env hash_api_key r) n references) (omega arith) rest.placed,
        );
      }

  pub configure_keys-Configured :
      (references unique : List (List ℕ)) (c r : ApiKeyAuthConfig)
      → KeysInvariant c
      → c.key_count + length references ≤ max_keys
      → configure_keys env hash_api_key unique c references ≡ ok r
      → Configured c r references
  unfolding configure_keys
  configure_keys-Configured [] unique c r v b e =
      subst (λ x. Configured c x []) (ok_inj e)
        (record { invariant = v; counted = omega arith; kept = λ i d b g. g; placed = tt })
  configure_keys-Configured (reference ∷ references) unique c r v b e =
      let (d, known, e) = bind-eq-ok _ _ e in
      let (fresh, new, e) = bind-eq-ok _ _ e in
      let (key, found, valid, hashed) = reference_digest-known unique reference d known in
      Configured-cons c r d reference references key v (omega arith) found valid hashed (
        configure_keys-Configured references (reference ∷ unique) (push_digest c d) r
          (push_digest-KeysInvariant c d v (omega arith) (throw_if-passed _ _ new))
          (push_digest_count c d (length references) b) e)
