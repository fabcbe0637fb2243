-- ===== src/Tls.antt =====
-- src/downstream_tls.cpp and src/upstream_tls.cpp. OpenSSL and the file system are parameters: each
-- call that can fail is a test that passes, and a failure of any of them ends in one error.
pub mod Alpn
pub mod Trust
mod Examples
use c_item.Base.{
  ℕ, zero, suc, ◌+◌, Bool, true, false, not, ◌&&◌, ◌||◌, Option, none, some, List, [], ◌∷◌, ltb,
  ◌==◌, if◌then◌else◌, length, take, drop, is_some,
}
use c_item.Base.Text.{codes, eq_bytes}
use c_item.Load.Result.{
  Result, ok, throws, ◌>>=◌, ◌>>◌, throw_if, tls_pair, tls_empty, tls_failed, trust_failed,
}
use c_item.Load.Scalar.{is_empty}

-- What the calls of OpenSSL and of std::filesystem answer.
pub record TlsLibrary : Type 0 where
  pub set_min_version : Bool
  pub set_early_data : Bool
  pub set_alpn : Bool
  pub use_certificate_chain_file : List ℕ → Bool
  pub use_private_key_file : List ℕ → Bool
  pub password_requested : List ℕ → Bool
  pub check_private_key : List ℕ → List ℕ → Bool
  pub load_verify_file : List ℕ → Bool
  pub is_regular_file : List ℕ → Bool

-- A context that has been set up.
pub record UpstreamTlsContext : Type 0 where
  pub verify_peer : Bool
  pub trusted : List ℕ

pub record DownstreamTlsContext : Type 0 where
  pub certificate : List ℕ
  pub private_key : List ℕ

unfoldable pub server_context : TlsLibrary → List ℕ → List ℕ → Result DownstreamTlsContext
server_context tls cert key = do
  throw_if (not tls.set_min_version || not tls.set_early_data) tls_failed
  throw_if (not (tls.use_certificate_chain_file cert)) tls_failed
  throw_if (not (tls.use_private_key_file key)) tls_failed
  throw_if (tls.password_requested key || not (tls.check_private_key cert key)) tls_failed
  ok (record { certificate = cert; private_key = key })

unfoldable pub make_downstream_tls_context :
    TlsLibrary → Option (List ℕ) → Option (List ℕ) → Result (Option DownstreamTlsContext)
make_downstream_tls_context tls none none = ok none
make_downstream_tls_context tls (some cert) none = throws tls_pair
make_downstream_tls_context tls none (some key) = throws tls_pair
make_downstream_tls_context tls (some cert) (some key) =
    if is_empty cert || is_empty key
    then throws tls_empty
    else server_context tls cert key >>= λ server. ok (some server)

abbrev pub bundles : List (List ℕ)
bundles =
    codes "/etc/ssl/certs/ca-certificates.crt"
    ∷ codes "/etc/pki/tls/certs/ca-bundle.crt"
    ∷ codes "/etc/ssl/cert.pem"
    ∷ []

-- The loop stops at the first bundle that exists, whether or not it can be loaded.
unfoldable pub load_bundle : TlsLibrary → List (List ℕ) → Result (List ℕ)
load_bundle tls [] = throws trust_failed
load_bundle tls (bundle ∷ rest) =
    let later = load_bundle tls rest in
    if tls.is_regular_file bundle
    then (throw_if (not (tls.load_verify_file bundle)) trust_failed >>= λ _. ok bundle)
    else later

unfoldable pub load_trust : TlsLibrary → Option (List ℕ) → Result (List ℕ)
load_trust tls (some ca_file) =
    throw_if (not (tls.load_verify_file ca_file)) trust_failed >>= λ _. ok ca_file
load_trust tls none = load_bundle tls bundles

unfoldable pub make_upstream_tls_context :
    TlsLibrary → Option (List ℕ) → Bool → Result (Option UpstreamTlsContext)
make_upstream_tls_context tls ca_file https_enabled =
    if not (is_some ca_file) && not https_enabled then ok none else do
      throw_if (not tls.set_min_version) trust_failed
      throw_if (not tls.set_alpn) trust_failed
      trusted ← load_trust tls ca_file
      ok (some (record { verify_peer = true; trusted = trusted }))

pub data AlpnResult : Type 0 where
  alert_fatal : AlpnResult
  selected : List ℕ → AlpnResult

-- The loop over the protocols that a client offers, from `offset` on, whose bytes are `input`.
-- A pass consumes the byte of the length at least, so that the bytes' number is enough fuel.
unfoldable pub select_loop : ℕ → List ℕ → AlpnResult
select_loop fuel [] = alert_fatal
select_loop zero (size ∷ rest) = alert_fatal
select_loop (suc fuel) (size ∷ rest) =
    let later = select_loop fuel (drop size rest) in
    if size == 0 || ltb (length rest) size
    then alert_fatal
    else if size == 8 && eq_bytes (take 8 rest) (codes "http/1.1")
    then selected (take size rest)
    else later

unfoldable pub select_http11 : List ℕ → AlpnResult
select_http11 input = select_loop (length input) input
