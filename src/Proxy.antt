-- ===== src/Proxy.antt =====
-- The messages of src/http_proxy.cpp: what of a request reaches the upstream, and what of its response
-- the client. Fields are in order; `set` removes every field of the name and adds one at the end.
-- The connection's fate is a value of the message, and a Connection field where it needs one.
pub mod Tokens
pub mod Target
pub mod Named
pub mod Found
pub mod Passes
pub mod Counts
pub mod Fields
pub mod Completion
mod Examples
use c_item.Base.{
  ℕ, zero, suc, ◌+◌, ◌-◌, Bool, true, false, not, ◌&&◌, ◌||◌, Option, none, some, List, [], ◌∷◌,
  ◌++◌, map, ltb, leb, ◌==◌, if◌then◌else◌, is_some, length, take, drop,
}
use c_item.Base.Text.{codes, eq_bytes, starts_with, find_byte, up_to}
use c_item.Base.Decimal.{to_decimal}
use c_item.Handler.{
  HttpRequest, Field, FieldName, authorization, connection, host, server, content_length, expect,
  SelectedUpstream, is_get, front_is,
}

abbrev pub lower : ℕ → ℕ
lower c = if leb b'A' c && leb c b'Z' then c - b'A' + b'a' else c

abbrev pub lowercase : List ℕ → List ℕ
lowercase = map lower

abbrev pub is_blank : ℕ → Bool
is_blank c = c == b' ' || c == 9

-- From the first byte that is not blank; empty where there is none.
unfoldable pub trim_front : List ℕ → List ℕ
trim_front [] = []
trim_front (c ∷ s) = let rest = trim_front s in if is_blank c then rest else c ∷ s

abbrev pub is_nil : List ℕ → Bool
is_nil [] = true
is_nil _ = false

-- Up to the last byte that is not blank.
unfoldable pub trim_back : List ℕ → List ℕ
trim_back [] = []
trim_back (c ∷ s) = let rest = trim_back s in if is_blank c && is_nil rest then [] else c ∷ rest

unfoldable pub trim_http_token : List ℕ → List ℕ
unfolding trim_front trim_back
trim_http_token value = lowercase (trim_back (trim_front value))

-- A set of tokens is their list; an empty token is not inserted.
abbrev pub insert_token : List ℕ → List (List ℕ) → List (List ℕ)
insert_token [] tokens = tokens
insert_token (c ∷ s) tokens = (c ∷ s) ∷ tokens

-- The loop over one value, of which `rest` is what begins at `begin`, on fuel.
unfoldable pub token_loop : ℕ → List ℕ → List (List ℕ) → List (List ℕ)
unfolding trim_http_token
token_loop zero rest tokens = tokens
token_loop (suc f) rest tokens = elim (find_byte b',' rest) [
  | none ↦ insert_token (trim_http_token rest) tokens
  | some n ↦ token_loop f (drop (suc n) rest) (insert_token (trim_http_token (take n rest)) tokens)
]

abbrev pub is_connection : FieldName → Bool
is_connection connection = true
is_connection _ = false

-- A value of `n` bytes has at most `n + 1` tokens.
unfoldable pub collect_tokens : List Field → List (List ℕ) → List (List ℕ)
unfolding token_loop
collect_tokens [] tokens = tokens
collect_tokens (f ∷ fs) tokens =
    collect_tokens fs
      (if is_connection f.name then token_loop (suc (length f.value)) f.value tokens else tokens)

abbrev pub connection_tokens : List Field → List (List ℕ)
connection_tokens fields = collect_tokens fields []

unfoldable pub contains : List ℕ → List (List ℕ) → Bool
contains t [] = false
contains t (u ∷ us) = eq_bytes t u || contains t us

abbrev pub hop_names : List (List ℕ)
hop_names =
    codes "connection"
    ∷ codes "keep-alive"
    ∷ codes "te"
    ∷ codes "trailer"
    ∷ codes "transfer-encoding"
    ∷ codes "upgrade"
    ∷ codes "proxy-connection"
    ∷ codes "proxy-authenticate"
    ∷ codes "proxy-authorization"
    ∷ []

unfoldable pub is_hop_by_hop : List ℕ → List (List ℕ) → Bool
unfolding contains
is_hop_by_hop name dynamic_tokens =
    contains (lowercase name) hop_names || contains (lowercase name) dynamic_tokens

unfoldable pub is_forwarding_metadata : List ℕ → Bool
is_forwarding_metadata name = starts_with (codes "x-forwarded-") (lowercase name)

unfoldable pub make_upstream_authority : List ℕ → ℕ → List ℕ
make_upstream_authority name port =
    if is_some (find_byte b':' name)
    then b'[' ∷ name ++ codes "]:" ++ to_decimal port
    else name ++ b':' ∷ to_decimal port

-- `remove_prefix`, and the root in front of what would not begin with a path.
unfoldable pub rooted : List ℕ → List ℕ
rooted [] = b'/' ∷ []
rooted (c ∷ s) = if c == b'?' then b'/' ∷ c ∷ s else c ∷ s

unfoldable pub rewrite_target : SelectedUpstream → List ℕ → List ℕ
unfolding rooted
rewrite_target selected target =
    if selected.strip_prefix
      && not (is_nil selected.prefix)
      && not (eq_bytes selected.prefix (codes "/"))
    then rooted (drop (length selected.prefix) target)
    else target

abbrev pub is_authorization : FieldName → Bool
is_authorization authorization = true
is_authorization _ = false

abbrev pub is_host : FieldName → Bool
is_host host = true
is_host _ = false

abbrev pub is_server : FieldName → Bool
is_server server = true
is_server _ = false

abbrev pub is_content_length : FieldName → Bool
is_content_length content_length = true
is_content_length _ = false

abbrev pub is_expect : FieldName → Bool
is_expect expect = true
is_expect _ = false

-- The fields of a request that are left out.
unfoldable pub drops_request_field : Bool → List (List ℕ) → Field → Bool
unfolding is_hop_by_hop is_forwarding_metadata
drops_request_field strip tokens f =
    (strip && is_authorization f.name)
    || is_hop_by_hop f.name_string tokens
    || is_forwarding_metadata f.name_string
    || is_host f.name
    || is_content_length f.name
    || is_expect f.name

unfoldable pub drops_response_field : List (List ℕ) → Field → Bool
unfolding is_hop_by_hop
drops_response_field tokens f =
    is_hop_by_hop f.name_string tokens || is_server f.name || is_content_length f.name

-- The loops that insert the fields that are kept.
unfoldable pub keep_fields : (Field → Bool) → List Field → List Field
keep_fields drops [] = []
keep_fields drops (f ∷ fs) = let rest = keep_fields drops fs in if drops f then rest else f ∷ rest

abbrev pub set_field : (FieldName → Bool) → Field → List Field → List Field
set_field named f fields = keep_fields (λ g. named g.name) fields ++ f ∷ []

abbrev pub content_length_field : List ℕ → Field
content_length_field body = record {
  name = content_length;
  name_string = codes "Content-Length";
  value = to_decimal (length body);
}

-- The length is set for every method but GET, and for a GET that has a body.
unfoldable pub set_length : HttpRequest → List Field → List Field
unfolding keep_fields
set_length request fields =
    if not (is_get request.method) || not (is_nil request.body)
    then set_field is_content_length (content_length_field request.body) fields
    else fields

abbrev pub host_field : SelectedUpstream → Field
host_field selected = record {
  name = host;
  name_string = codes "Host";
  value = make_upstream_authority selected.upstream.host selected.upstream.port;
}

abbrev pub connection_field : List ℕ → Field
connection_field value = record {
  name = connection;
  name_string = codes "Connection";
  value = value;
}

-- Beast's `keep_alive` on a message that has no Connection field: it adds one where the fate of the
-- connection is not the version's default.
unfoldable pub set_keep_alive : (version : ℕ) → (keep_alive : Bool) → List Field → List Field
unfolding keep_fields
set_keep_alive version keep_alive fields =
    if ltb version 11
    then if keep_alive
      then set_field is_connection (connection_field (codes "keep-alive")) fields
      else fields
    else if keep_alive
    then fields
    else set_field is_connection (connection_field (codes "close")) fields

unfoldable pub upstream_fields : SelectedUpstream → HttpRequest → (keep_alive : Bool) → List Field
unfolding set_length set_keep_alive keep_fields drops_request_field collect_tokens
upstream_fields selected request keep_alive = set_length request (
    set_keep_alive 11 keep_alive (
      set_field is_host (host_field selected) (
        keep_fields
          (drops_request_field selected.strip_authorization (connection_tokens request.fields))
          request.fields)))

unfoldable pub make_upstream_request : SelectedUpstream → HttpRequest → Bool → HttpRequest
unfolding rewrite_target upstream_fields
make_upstream_request selected request keep_alive = record {
  method = request.method;
  target = rewrite_target selected request.target;
  version = 11;
  keep_alive = keep_alive;
  fields = upstream_fields selected request keep_alive;
  body = request.body;
}

abbrev pub server_field : Field
server_field = record { name = server; name_string = codes "Server"; value = codes "ApiGate" }

-- The fields of the response to a client of a version, which may keep its connection.
unfoldable pub downstream_fields : (version : ℕ) → (keep_alive : Bool) → List Field → List Field
unfolding set_keep_alive keep_fields drops_response_field collect_tokens
downstream_fields version keep_alive fields = set_keep_alive version keep_alive (
    set_field is_server server_field
      (keep_fields (drops_response_field (connection_tokens fields)) fields))
