-- ===== src/Tls/Examples.antt =====
-- The theorems at concrete inputs.
use c_item.Base.{◌≡◌, refl, true, false, none, some, [], ◌∷◌, arith, if◌then◌else◌}
use c_item.Base.Text.{codes, eq_bytes}
use c_item.Load.Result.{ok, ◌>>=◌}
use c_item.Tls.{
  TlsLibrary, UpstreamTlsContext, selected, alert_fatal, select_http11, make_upstream_tls_context,
  load_trust, load_bundle,
}
use c_item.Tls.Alpn.{http11, encode, offers, select_http11-encode}
use c_item.Tls.Trust.{IsUpstreamTrust, make_upstream_tls_context-IsUpstreamTrust}

select_http11-encode_example :
    select_http11 (encode (codes "h2" ∷ http11 ∷ []))
    ≡ (if offers (codes "h2" ∷ http11 ∷ []) then selected http11 else alert_fatal)
select_http11-encode_example =
    select_http11-encode (codes "h2" ∷ http11 ∷ []) (omega arith, (omega arith, tt))

abbrev tls : TlsLibrary
tls = record {
  set_min_version = true;
  set_early_data = true;
  set_alpn = true;
  use_certificate_chain_file = λ file. true;
  use_private_key_file = λ file. true;
  password_requested = λ file. false;
  check_private_key = λ cert key. true;
  load_verify_file = λ file. true;
  is_regular_file = λ file. eq_bytes file (codes "/etc/ssl/cert.pem");
}

abbrev context : UpstreamTlsContext
context = record { verify_peer = true; trusted = codes "/etc/ssl/cert.pem" }

makes : make_upstream_tls_context tls none true ≡ ok (some context)
unfolding make_upstream_tls_context load_trust load_bundle eq_bytes ◌>>=◌
makes = refl

make_upstream_tls_context-IsUpstreamTrust_example : IsUpstreamTrust tls none true (some context)
make_upstream_tls_context-IsUpstreamTrust_example =
    make_upstream_tls_context-IsUpstreamTrust tls none true (some context) makes
