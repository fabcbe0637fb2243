-- ===== src/Auth/Examples.antt =====
-- Requests with and without keys, and the theorems at concrete inputs. A digest here is the key
-- itself.
use c_item.Base.{ℕ, ◌≡◌, ◌↔◌, refl, true, false, Option, some, List, [], ◌∷◌, arith}
use c_item.Base.Text.{codes, eq_bytes, find_byte, starts_with, all_bytes}
use c_item.Config.{ApiKeyAuthConfig, ApiKeyDigest}
use c_item.Handler.{HttpRequest, Field, get, authorization}
use c_item.Auth.{
  valid_api_key_reference, valid_reference_name, upper_digit_or_underscore, valid_api_key, key_byte,
  matches_api_key_digest, match_digests, iequals, authorizations, skip_spaces, bearer_credential,
  check_credential, authenticate_value, authenticate_only, authenticate_api_key,
}
use c_item.Auth.Credential.{Authentic, authenticate_api_key_iff}

abbrev a_key : List ℕ
a_key = codes "0123456789abcdef0123456789ABCDEF"

abbrev another_key : List ℕ
another_key = codes "zzzzzzzzzzzzzzzz----------------"

abbrev two_keys : ApiKeyAuthConfig
two_keys = record { digests = another_key ∷ a_key ∷ [] ∷ [] ∷ []; key_count = 2 }

abbrev identity_hash : List ℕ → Option ApiKeyDigest
identity_hash key = some key

abbrev with_fields : List Field → HttpRequest
with_fields fields = record {
  method = get;
  target = codes "/a";
  version = 11;
  keep_alive = true;
  fields = fields;
  body = [];
}

abbrev bearer : List ℕ → Field
bearer value = record { name = authorization; name_string = codes "Authorization"; value = value }

abbrev with_key : HttpRequest
with_key = with_fields (bearer (codes "bEARER  0123456789abcdef0123456789ABCDEF") ∷ [])

key_accepted : authenticate_api_key identity_hash two_keys with_key ≡ some true
unfolding authenticate_api_key authenticate_only authenticate_value authorizations bearer_credential
    find_byte iequals skip_spaces check_credential valid_api_key key_byte upper_digit_or_underscore
    all_bytes matches_api_key_digest match_digests eq_bytes
key_accepted = refl

two_fields_refused :
    authenticate_api_key identity_hash two_keys (with_fields (bearer a_key ∷ bearer a_key ∷ []))
    ≡ some false
unfolding authenticate_api_key authenticate_only authorizations
two_fields_refused = refl

reference_accepted : valid_api_key_reference (codes "APIGATE_AUTH_KEY_A1") ≡ true
unfolding valid_api_key_reference valid_reference_name upper_digit_or_underscore starts_with
    all_bytes
reference_accepted = refl

authenticate_api_key_iff_example :
    (authenticate_api_key identity_hash two_keys with_key ≡ some true)
    ↔ Authentic identity_hash two_keys with_key
authenticate_api_key_iff_example =
    authenticate_api_key_iff identity_hash two_keys (omega arith) (omega arith) with_key
