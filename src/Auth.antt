-- ===== src/Auth.antt =====
-- src/api_key_auth.hpp and src/api_key_auth.cpp. The digest of a key is OpenSSL's, a parameter:
-- `none` is the exception that hash_api_key throws. Bytes compare as text.
pub mod Credential
mod Examples
use c_item.Base.{
  ℕ, zero, suc, ◌+◌, ◌≤◌, Bool, true, false, not, ◌&&◌, ◌||◌, Option, none, some, List, [], ◌∷◌,
  ltb, leb, ◌==◌, if◌then◌else◌, length, take, drop, get_elem?,
}
use c_item.Base.Text.{codes, eq_bytes, starts_with, find_byte, all_bytes}
use c_item.Config.{ApiKeyAuthConfig, ApiKeyDigest}
use c_item.Handler.{HttpRequest, Field, FieldName, authorization}

abbrev pub in_range : ℕ → ℕ → ℕ → Bool
in_range low high c = leb low c && leb c high

unfoldable pub upper_digit_or_underscore : ℕ → Bool
upper_digit_or_underscore c = in_range b'A' b'Z' c || in_range b'0' b'9' c || c == b'_'

abbrev pub reference_prefix : List ℕ
reference_prefix = codes "APIGATE_AUTH_KEY_"

-- The tests behind `remove_prefix`.
unfoldable pub valid_reference_name : List ℕ → Bool
unfolding upper_digit_or_underscore
valid_reference_name name =
    not (length name == 0) && leb (length name) 64 && all_bytes upper_digit_or_underscore name

unfoldable pub valid_api_key_reference : List ℕ → Bool
unfolding valid_reference_name
valid_api_key_reference reference =
    if starts_with reference_prefix reference
    then valid_reference_name (drop (length reference_prefix) reference)
    else false

unfoldable pub key_byte : ℕ → Bool
key_byte c = upper_digit_or_underscore c || in_range b'a' b'z' c || c == b'-'

unfoldable pub valid_api_key : List ℕ → Bool
valid_api_key key = leb 32 (length key) && leb (length key) 256 && all_bytes key_byte key

-- The loop over the first `n` digests; `matched` only ever gains.
unfoldable pub match_digests : List ApiKeyDigest → ℕ → ApiKeyDigest → Bool → Bool
match_digests digests zero candidate matched = matched
match_digests [] (suc n) candidate matched = matched
match_digests (d ∷ digests) (suc n) candidate matched =
    match_digests digests n candidate (matched || eq_bytes d candidate)

unfoldable pub matches_api_key_digest : ApiKeyAuthConfig → ApiKeyDigest → Bool
matches_api_key_digest config candidate =
    if config.key_count == 0 || ltb (length config.digests) config.key_count
    then false
    else match_digests config.digests config.key_count candidate false

-- beast::iequals: equal but for the case of ASCII letters.
abbrev pub to_lower : ℕ → ℕ
to_lower c = if in_range b'A' b'Z' c then c + 32 else c

unfoldable pub iequals : List ℕ → List ℕ → Bool
iequals [] [] = true
iequals (x ∷ xs) (y ∷ ys) = to_lower x == to_lower y && iequals xs ys
iequals _ _ = false

-- The values of the fields of a name, in order: equal_range.
abbrev is_authorization : FieldName → Bool
is_authorization authorization = true
is_authorization _ = false

unfoldable pub authorizations : List Field → List (List ℕ)
authorizations [] = []
authorizations (f ∷ fs) =
    let rest = authorizations fs in if is_authorization f.name then f.value ∷ rest else rest

-- `remove_prefix(find_first_not_of(' '))`; `none` where it is npos.
unfoldable pub skip_spaces : List ℕ → Option (List ℕ)
skip_spaces [] = none
skip_spaces (c ∷ s) = let rest = skip_spaces s in if c == b' ' then rest else some (c ∷ s)

-- The credential behind the scheme, from the first space on.
unfoldable pub bearer_credential : List ℕ → Option (List ℕ)
unfolding skip_spaces
bearer_credential value = elim (find_byte b' ' value) [
  | none ↦ none
  | some separator ↦
      if iequals (take separator value) (codes "Bearer")
      then skip_spaces (drop separator value)
      else none
]

-- The end of `authenticate_api_key` on a credential.
unfoldable pub check_credential :
    (List ℕ → Option ApiKeyDigest) → ApiKeyAuthConfig → List ℕ → Option Bool
check_credential hash_api_key config key =
    if valid_api_key key
    then elim (hash_api_key key) [
      | none ↦ none
      | some candidate ↦ some (matches_api_key_digest config candidate)
    ]
    else some false

unfoldable pub authenticate_value :
    (List ℕ → Option ApiKeyDigest) → ApiKeyAuthConfig → List ℕ → Option Bool
unfolding check_credential bearer_credential
authenticate_value hash_api_key config value = elim (bearer_credential value) [
  | none ↦ some false
  | some key ↦ check_credential hash_api_key config key
]

-- Only a single authorization field counts.
unfoldable pub authenticate_only :
    (List ℕ → Option ApiKeyDigest) → ApiKeyAuthConfig → List (List ℕ) → Option Bool
unfolding authenticate_value
authenticate_only hash_api_key config [] = some false
authenticate_only hash_api_key config (value ∷ []) = authenticate_value hash_api_key config value
authenticate_only hash_api_key config (value ∷ other ∷ values) = some false

-- `none` is the exception of hash_api_key.
unfoldable pub authenticate_api_key :
    (List ℕ → Option ApiKeyDigest) → ApiKeyAuthConfig → HttpRequest → Option Bool
unfolding authenticate_only
authenticate_api_key hash_api_key config request =
    authenticate_only hash_api_key config (authorizations request.fields)
