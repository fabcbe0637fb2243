-- ===== src/Tls/Trust.antt =====
-- What an upstream's certificate is checked against, and what a server presents.
use c_item.Base.{
  ℕ, arith, ◌≡◌, refl, subst, Bool, true, false, not, ◌&&◌, ◌||◌, Option, none, some, List, [], ◌∷◌,
  Bool-cases, inl, inr, is_some,
}
use c_item.Load.Result.{ok, bind-eq-ok, ok_inj, throw_if-passed}
use c_item.Tls.{
  TlsLibrary, UpstreamTlsContext, bundles, load_bundle, load_trust, make_upstream_tls_context,
}

-- The first of the files that exists, which has been loaded.
pub data FirstFile (tls : TlsLibrary) (file : List ℕ) : List (List ℕ) → Type 0 where
  here :
      {rest : List (List ℕ)}
      → tls.is_regular_file file ≡ true
      → tls.load_verify_file file ≡ true
      → FirstFile tls file (file ∷ rest)
  later :
      {other : List ℕ} {rest : List (List ℕ)}
      → tls.is_regular_file other ≡ false
      → FirstFile tls file rest
      → FirstFile tls file (other ∷ rest)

-- Where the trust comes from: the configured file alone, or else the first bundle of the system.
abbrev pub Trusted : TlsLibrary → Option (List ℕ) → List ℕ → Type 0
Trusted tls (some ca_file) file = (file ≡ ca_file) × (tls.load_verify_file file ≡ true)
Trusted tls none file = FirstFile tls file bundles

loaded :
    (tls : TlsLibrary) (file : List ℕ)
    → (not (tls.load_verify_file file)) ≡ false
    → tls.load_verify_file file ≡ true
loaded tls file e = ground arith

load_bundle-FirstFile :
    (tls : TlsLibrary) (files : List (List ℕ)) (file : List ℕ)
    → load_bundle tls files ≡ ok file
    → FirstFile tls file files
unfolding load_bundle
load_bundle-FirstFile tls [] file e = cc
load_bundle-FirstFile tls (f ∷ files) file e = elim (Bool-cases (tls.is_regular_file f)) [
  | inl g ↦
      let (u, l, e) = bind-eq-ok _ _ (simp g at e) in
      subst (λ x. FirstFile tls x (f ∷ files)) (ok_inj e)
        (here g (loaded tls f (throw_if-passed _ _ l)))
  | inr g ↦ later g (load_bundle-FirstFile tls files file (simp g at e))
]

load_trust-Trusted :
    (tls : TlsLibrary) (ca_file : Option (List ℕ)) (file : List ℕ)
    → load_trust tls ca_file ≡ ok file
    → Trusted tls ca_file file
unfolding load_trust
load_trust-Trusted tls none file e = load_bundle-FirstFile tls bundles file e
load_trust-Trusted tls (some ca_file) file e =
    let (u, l, e) = bind-eq-ok _ _ e in
    subst (Trusted tls (some ca_file)) (ok_inj e) (refl, loaded tls ca_file (throw_if-passed _ _ l))

-- What a call of the upstream's function returns: nothing exactly where neither a file is given nor
-- https is used, and else a context that checks the peer against what is trusted.
abbrev pub IsUpstreamTrust :
    TlsLibrary → Option (List ℕ) → Bool → Option UpstreamTlsContext → Type 0
IsUpstreamTrust tls ca_file https none = (ca_file ≡ none) × (https ≡ false)
IsUpstreamTrust tls ca_file https (some c) =
    (c.verify_peer ≡ true) × Trusted tls ca_file c.trusted × ((is_some ca_file || https) ≡ true)

made :
    (tls : TlsLibrary) (ca_file : Option (List ℕ)) (https : Bool) (r : Option UpstreamTlsContext)
    → (is_some ca_file || https) ≡ true
    → make_upstream_tls_context tls ca_file https ≡ ok r
    → IsUpstreamTrust tls ca_file https r
unfolding make_upstream_tls_context
made tls ca_file https r wanted e =
    let asked : (not (is_some ca_file) && not https) ≡ false = ground arith in
    let (version, v, e) = bind-eq-ok _ _ (simp asked at e) in
    let (alpn, a, e) = bind-eq-ok _ _ e in
    let (file, t, e) = bind-eq-ok _ _ e in
    subst (IsUpstreamTrust tls ca_file https) (ok_inj e)
      (refl, load_trust-Trusted tls ca_file file t, wanted)

-- An upstream context that is made checks the peer's certificate, against the configured file alone
-- where there is one and else against the first bundle of the system that exists, which has been
-- loaded; there is no context only where nothing asks for one.
pub make_upstream_tls_context-IsUpstreamTrust :
    (tls : TlsLibrary) (ca_file : Option (List ℕ)) (https : Bool) (r : Option UpstreamTlsContext)
    → make_upstream_tls_context tls ca_file https ≡ ok r
    → IsUpstreamTrust tls ca_file https r
unfolding make_upstream_tls_context
make_upstream_tls_context-IsUpstreamTrust tls none false r e =
    subst (IsUpstreamTrust tls none false) (ok_inj e) (refl, refl)
make_upstream_tls_context-IsUpstreamTrust tls none true r e = made tls none true r refl e
make_upstream_tls_context-IsUpstreamTrust tls (some f) https r e = made tls (some f) https r refl e
