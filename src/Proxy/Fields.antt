-- ===== src/Proxy/Fields.antt =====
-- The fields that reach the upstream.
use c_item.Base.{
  ℕ, ◌≡◌, ◌≢◌, ◌⊎◌, refl, ◌∙◌, inl, inr, Bool, true, false, not, ◌||◌, some, List, arith, if_cases,
  get_elem?,
}
use c_item.Base.Text.{codes}
use c_item.Proxy.Passes.{
  Passes, kept-Passes, Passes-kept, is_host-eq, is_content_length-eq, is_connection-eq,
}
use c_item.Proxy.Named.{IsSolid}
use c_item.Handler.{HttpRequest, Field, connection, SelectedUpstream, is_get}
use c_item.Proxy.{
  connection_tokens, is_host, is_content_length, drops_request_field, keep_fields, set_field,
  content_length_field, set_length, host_field, upstream_fields, is_nil, is_connection,
  connection_field, set_keep_alive, make_upstream_request,
}
use c_item.Proxy.Counts.{
  count, kept_from, kept_to, set_field-one, set_field-other, set_field_from, set_field_to,
  is_host-not-length, is_host-not-connection, is_connection-not-length,
}

module _ (selected : SelectedUpstream) (request : HttpRequest) where
  abbrev drops : Field → Bool
  drops = drops_request_field selected.strip_authorization (connection_tokens request.fields)

  -- A field that came with the request, and may pass.
  abbrev pub Forwarded : Field → Type 0
  Forwarded f =
      Passes selected.strip_authorization request.fields f
      × (j : ℕ) × (get_elem? request.fields j ≡ some f)

  -- Where a field of the request to the upstream comes from.
  pub data Origin (f : Field) : Type 0 where
    from_host : host_field selected ≡ f → Origin f
    from_connection : connection_field (codes "close") ≡ f → Origin f
    from_length : content_length_field request.body ≡ f → Origin f
    from_request : Forwarded f → Origin f

  abbrev From : List Field → Type 0
  From fs = (i : ℕ) (f : Field) → get_elem? fs i ≡ some f → Origin f

  -- A field of the request that may pass, whose name holds no blank, and is not the Connection field.
  pub record Passing (f : Field) : Type 0 where
    pub passes : Passes selected.strip_authorization request.fields f
    pub solid : IsSolid f.name_string
    pub not_connection : f.name ≢ connection
    pub place : ℕ
    pub found : get_elem? request.fields place ≡ some f

  abbrev Arrive : List Field → Type 0
  Arrive fs = (f : Field) → Passing f → (i : ℕ) × (get_elem? fs i ≡ some f)

  abbrev with_host : List Field
  with_host = set_field is_host (host_field selected) (keep_fields drops request.fields)

  with_host-From : From with_host
  with_host-From i f e = elim (set_field_from is_host (host_field selected) _ i f e) [
    | inl h ↦ from_host h
    | inr (j, h) ↦
        let (kept, k, there) = kept_from drops request.fields j f h in
        from_request (kept-Passes selected.strip_authorization request.fields f kept, k, there)
  ]

  with_host-Arrive : Arrive with_host
  with_host-Arrive f v =
      let p = v.passes in
      let kept = Passes-kept selected.strip_authorization request.fields f v.solid p in
      let (i, e) = kept_to drops request.fields v.place f kept v.found in
      set_field_to is_host (host_field selected) _ i f (is_host-eq f.name p.not_host) e

  -- What is to be said of the fields, for a connection that is closed or kept.
  pub record IsFramed (keep_alive : Bool) (fs : List Field) : Type 0 where
    pub one_host : count is_host fs ≡ 1
    pub one_connection : (keep_alive ≡ true) ⊎ (count is_connection fs ≡ 1)
    pub one_length : (is_get request.method ≡ true) ⊎ (count is_content_length fs ≡ 1)
    pub origin : (i : ℕ) (f : Field) → get_elem? fs i ≡ some f → Origin f
    pub arrive : (f : Field) → Passing f → (i : ℕ) × (get_elem? fs i ≡ some f)

  record Connected (keep_alive : Bool) (fs : List Field) : Type 0 where
    one_host : count is_host fs ≡ 1
    one_connection : (keep_alive ≡ true) ⊎ (count is_connection fs ≡ 1)
    origin : From fs
    arrive : Arrive fs

  connected : (keep_alive : Bool) → Connected keep_alive (set_keep_alive 11 keep_alive with_host)
  unfolding set_keep_alive
  connected true = record {
    one_host = set_field-one is_host (host_field selected) (keep_fields drops request.fields) refl;
    one_connection = inl refl;
    origin = with_host-From;
    arrive = with_host-Arrive;
  }
  connected false =
      let close = connection_field (codes "close") in
      record {
        one_host =
            set_field-other is_connection close with_host is_host refl is_host-not-connection
            ∙ set_field-one is_host (host_field selected) (keep_fields drops request.fields) refl;
        one_connection = inr (set_field-one is_connection close with_host refl);
        origin = λ i f e. elim (set_field_from is_connection close with_host i f e) [
          | inl h ↦ from_connection h
          | inr (j, h) ↦ with_host-From j f h
        ];
        arrive = λ f v.
            let (i, e) = with_host-Arrive f v in
            set_field_to is_connection close with_host i f
              (is_connection-eq f.name v.not_connection) e;
      }

  framed :
      (keep_alive : Bool) (fs : List Field)
      → Connected keep_alive fs
      → IsFramed keep_alive (set_field is_content_length (content_length_field request.body) fs)
  framed keep_alive fs v =
      let length_field = content_length_field request.body in
      record {
        one_host =
            set_field-other is_content_length length_field fs is_host refl is_host-not-length
            ∙ v.one_host;
        one_connection = elim v.one_connection [
          | inl k ↦ inl k
          | inr k ↦ inr (
              set_field-other is_content_length length_field fs is_connection refl
                is_connection-not-length
              ∙ k)
        ];
        one_length = inr (set_field-one is_content_length length_field fs refl);
        origin = λ i f e. elim (set_field_from is_content_length length_field fs i f e) [
          | inl h ↦ from_length h
          | inr (j, h) ↦ v.origin j f h
        ];
        arrive = λ f w.
            let (i, e) = v.arrive f w in
            let p = w.passes in
            set_field_to is_content_length length_field fs i f
              (is_content_length-eq f.name p.not_length) e;
      }

  -- The upstream sees one Host field, one Connection field that closes where the connection is not to
  -- be kept, and, for every method but GET, one Content-Length field. The gateway makes these, with
  -- the length of the body; every other field came with the request, and is not hop by hop, nor named
  -- by a Connection field in any case and with blanks around it, nor forwarding metadata, nor an
  -- Expect field, nor, where the route has keys, the authorization. Each such field whose name is not
  -- the Connection field's, and holds no blank, is there.
  pub make_upstream_request-IsFramed :
      (keep_alive : Bool)
      → IsFramed keep_alive (make_upstream_request selected request keep_alive).fields
  unfolding make_upstream_request upstream_fields set_length
  make_upstream_request-IsFramed keep_alive =
      let v = connected keep_alive in
      if_cases (IsFramed keep_alive) (not (is_get request.method) || not (is_nil request.body))
        (λ e. framed keep_alive _ v)
        (λ e. record {
          one_host = v.one_host;
          one_connection = v.one_connection;
          one_length = inl (ground arith);
          origin = v.origin;
          arrive = v.arrive;
        })
