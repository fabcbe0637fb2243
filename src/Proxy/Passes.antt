-- ===== src/Proxy/Passes.antt =====
-- The fields of a request that may reach the upstream, said without the code's own tests.
use c_item.Base.{
  ℕ, ◌≡◌, ◌≢◌, ◌⊎◌, refl, sym, ap, inl, inr, Bool, true, false, ◌&&◌, List, [], ◌∷◌, ◌++◌, arith,
  Each, Bool-cases, length, drop,
}
use c_item.Base.Text.{
  codes, eq_bytes, eq_bytes_iff, starts_with, starts_with-append, starts_with_rest,
}
use c_item.Handler.{Field, FieldName, authorization, connection, host, content_length, expect}
use c_item.Proxy.{
  lowercase, is_hop_by_hop, is_forwarding_metadata, hop_names, contains, drops_request_field,
  connection_tokens, is_authorization, is_host, is_content_length, is_expect, is_connection,
}
use c_item.Proxy.Named.{IsNamed, IsNamed-contains, IsSolid}
use c_item.Proxy.Found.{contains-IsNamed}

-- The names of the fields that concern one connection.
abbrev hop_by_hop : List (List ℕ)
hop_by_hop =
    codes "connection"
    ∷ codes "keep-alive"
    ∷ codes "te"
    ∷ codes "trailer"
    ∷ codes "transfer-encoding"
    ∷ codes "upgrade"
    ∷ codes "proxy-connection"
    ∷ codes "proxy-authenticate"
    ∷ codes "proxy-authorization"
    ∷ []

-- A field among `fields` that may pass; `strip` is whether the route has keys.
pub record Passes (strip : Bool) (fields : List Field) (f : Field) : Type 0 where
  pub not_hop_by_hop : Each (λ n. lowercase f.name_string ≢ n) hop_by_hop
  pub not_named : ¬ (IsNamed fields f.name_string)
  pub not_forwarding :
      ¬ ((rest : List ℕ) × (lowercase f.name_string ≡ codes "x-forwarded-" ++ rest))
  pub not_host : f.name ≢ host
  pub not_length : f.name ≢ content_length
  pub not_expect : f.name ≢ expect
  pub not_credential : (strip ≡ false) ⊎ (f.name ≢ authorization)

none_of : (t : List ℕ) (us : List (List ℕ)) → contains t us ≡ false → Each (λ u. t ≢ u) us
unfolding contains
none_of t [] e = tt
none_of t (u ∷ us) e =
    let (a, b) : (eq_bytes t u ≡ false) × (contains t us ≡ false) = ground arith in
    (λ same. cc (a, (eq_bytes_iff t u).1 same), none_of t us b)

-- What the six tests come to.
record Tested (strip : Bool) (fields : List Field) (f : Field) : Type 0 where
  hop : contains (lowercase f.name_string) hop_names ≡ false
  named : contains (lowercase f.name_string) (connection_tokens fields) ≡ false
  forwarding : is_forwarding_metadata f.name_string ≡ false
  to_host : is_host f.name ≡ false
  to_length : is_content_length f.name ≡ false
  to_expect : is_expect f.name ≡ false
  credential : (strip && is_authorization f.name) ≡ false

kept-Tested :
    (strip : Bool) (fields : List Field) (f : Field)
    → drops_request_field strip (connection_tokens fields) f ≡ false
    → Tested strip fields f
unfolding drops_request_field is_hop_by_hop
kept-Tested strip fields f e = ground arith

pub kept-Passes :
    (strip : Bool) (fields : List Field) (f : Field)
    → drops_request_field strip (connection_tokens fields) f ≡ false
    → Passes strip fields f
unfolding is_forwarding_metadata
kept-Passes strip fields f e =
    let t = kept-Tested strip fields f e in
    record {
      not_hop_by_hop = none_of (lowercase f.name_string) hop_names t.hop;
      not_named = λ v. cc (t.named, IsNamed-contains fields f.name_string v);
      not_forwarding = λ (rest, same). cc (
        t.forwarding,
        ap (starts_with (codes "x-forwarded-")) same,
        starts_with-append (codes "x-forwarded-") rest,
      );
      not_host = λ same. cc (t.to_host, ap is_host same);
      not_length = λ same. cc (t.to_length, ap is_content_length same);
      not_expect = λ same. cc (t.to_expect, ap is_expect same);
      not_credential = elim (Bool-cases strip) [
        | inr s ↦ inl s
        | inl s ↦ inr (λ same. cc (rw s at t.credential, ap is_authorization same))
      ];
    }

all_differ : (t : List ℕ) (us : List (List ℕ)) → Each (λ u. t ≢ u) us → contains t us ≡ false
unfolding contains
all_differ t [] v = refl
all_differ t (u ∷ us) v = elim (Bool-cases (eq_bytes t u)) [
  | inl e ↦ absurd (v.0 ((eq_bytes_iff t u).0 e))
  | inr e ↦ rw e (all_differ t us v.1)
]

not_true : (b : Bool) → ¬ (b ≡ true) → b ≡ false
not_true true n = absurd (n refl)
not_true false n = refl

prefix_rest : (p s : List ℕ) → starts_with p s ≡ true → (rest : List ℕ) × (s ≡ p ++ rest)
prefix_rest p s e = (drop (length p) s, sym (starts_with_rest p s e))

pub is_host-eq : (n : FieldName) → n ≢ host → is_host n ≡ false
is_host-eq host d = absurd (d refl)
is_host-eq _ d = refl

pub is_content_length-eq : (n : FieldName) → n ≢ content_length → is_content_length n ≡ false
is_content_length-eq content_length d = absurd (d refl)
is_content_length-eq _ d = refl

is_expect-eq : (n : FieldName) → n ≢ expect → is_expect n ≡ false
is_expect-eq expect d = absurd (d refl)
is_expect-eq _ d = refl

is_authorization-eq : (n : FieldName) → n ≢ authorization → is_authorization n ≡ false
is_authorization-eq authorization d = absurd (d refl)
is_authorization-eq _ d = refl

pub is_connection-eq : (n : FieldName) → n ≢ connection → is_connection n ≡ false
is_connection-eq connection d = absurd (d refl)
is_connection-eq _ d = refl

Passes-Tested :
    (strip : Bool) (fields : List Field) (f : Field)
    → IsSolid f.name_string
    → Passes strip fields f
    → Tested strip fields f
unfolding is_forwarding_metadata
Passes-Tested strip fields f s v = record {
  hop = all_differ (lowercase f.name_string) hop_names v.not_hop_by_hop;
  named = not_true _ (λ e. v.not_named (contains-IsNamed fields f.name_string s e));
  forwarding =
      not_true _
        (λ e. v.not_forwarding (prefix_rest (codes "x-forwarded-") (lowercase f.name_string) e));
  to_host = is_host-eq f.name v.not_host;
  to_length = is_content_length-eq f.name v.not_length;
  to_expect = is_expect-eq f.name v.not_expect;
  credential = elim v.not_credential [
    | inl e ↦ rw e refl
    | inr d ↦ let e = is_authorization-eq f.name d in ground arith
  ];
}

pub Passes-kept :
    (strip : Bool) (fields : List Field) (f : Field)
    → IsSolid f.name_string
    → Passes strip fields f
    → drops_request_field strip (connection_tokens fields) f ≡ false
unfolding drops_request_field is_hop_by_hop
Passes-kept strip fields f s v = let t = Passes-Tested strip fields f s v in ground arith
