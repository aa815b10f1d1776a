-- ===== src/Request/Setters/Headers.antt =====
-- What the builder's setters write is what the request says (request.go).
use go_httpclient.Shared.{◌≡◌, refl, ap, ◌∙◌, List, [], ◌∷◌, ◌++◌, String}
use Prim.Native.String.{◌++◌ as str_append}
use go_httpclient.Request.{
  RequestBuilder, marshaled, unsupported, set_headers, set_header, set_query_param,
  set_query_params, set_path_param, set_path_params, set_context, set_timeout, add_header,
  set_content_type, set_accept, set_user_agent, set_auth_token, set_basic_auth, add_query_param,
  set_body, set_body_bytes, set_body_form, set_body_marshaled,
}
use go_httpclient.Request.Setters.{Setter, apply_setter}
use go_httpclient.Request.Setters.Maps.{
  values, MultiMap, Write, replaces, appends, write_all, set_values-values, add_value-values,
}

abbrev replacing : (String → String) → List (String × String) → List Write
replacing f [] = []
replacing f ((k, v) ∷ ps) = replaces (f k) v ∷ replacing f ps

-- What a call writes to the query.
abbrev pub query_writes : Setter → List Write
query_writes (Setter.with_query_param k v) = replaces k v ∷ []
query_writes (Setter.with_query_params ps) = replacing (λ k. k) ps
query_writes (Setter.with_added_query_param k v) = appends k v ∷ []
query_writes s = []

abbrev pub all_writes : (Setter → List Write) → List Setter → List Write
all_writes f [] = []
all_writes f (s ∷ ss) = f s ++ all_writes f ss

-- What a builder's headers and query are as maps.
abbrev pub header_map : RequestBuilder → MultiMap
header_map rb = values rb.headers

abbrev pub query_map : RequestBuilder → MultiMap
query_map rb = values rb.query_params

module _ (canonical : String → String) (base64 : String → String) where
  -- What a call writes to the headers.
  abbrev pub header_writes : Setter → List Write
  header_writes (Setter.with_header k v) = replaces (canonical k) v ∷ []
  header_writes (Setter.with_headers hs) = replacing canonical hs
  header_writes (Setter.with_added_header k v) = appends (canonical k) v ∷ []
  header_writes (Setter.with_content_type v) = replaces (canonical "Content-Type") v ∷ []
  header_writes (Setter.with_accept v) = replaces (canonical "Accept") v ∷ []
  header_writes (Setter.with_user_agent v) = replaces (canonical "User-Agent") v ∷ []
  header_writes (Setter.with_auth_token t) =
      replaces (canonical "Authorization") (str_append "Bearer " t) ∷ []
  header_writes (Setter.with_basic_auth u p) =
      replaces (canonical "Authorization")
        (str_append "Basic " (base64 (str_append u (str_append ":" p))))
      ∷ []
  header_writes (Setter.with_body_form form) =
      replaces (canonical "Content-Type") "application/x-www-form-urlencoded" ∷ []
  header_writes (Setter.with_body_json (marshaled bs)) =
      replaces (canonical "Content-Type") "application/json" ∷ []
  header_writes (Setter.with_body_xml (marshaled bs)) =
      replaces (canonical "Content-Type") "application/xml" ∷ []
  header_writes s = []

  set_headers-map :
      (hs : List (String × String)) (rb : RequestBuilder)
      → (header_map (set_headers canonical hs rb)
          ≡ write_all (replacing canonical hs) (header_map rb))
        × (query_map (set_headers canonical hs rb) ≡ query_map rb)
  unfolding set_headers set_header
  set_headers-map [] rb = (refl, refl)
  set_headers-map ((k, v) ∷ hs) rb =
      let (h, q) = set_headers-map hs (set_header canonical k v rb) in
      (
        h ∙ ap (write_all (replacing canonical hs)) (set_values-values (canonical k) v rb.headers),
        q,
      )

  set_query_params-map :
      (ps : List (String × String)) (rb : RequestBuilder)
      → (header_map (set_query_params ps rb) ≡ header_map rb)
        × (query_map (set_query_params ps rb) ≡ write_all (replacing (λ k. k) ps) (query_map rb))
  unfolding set_query_params set_query_param
  set_query_params-map [] rb = (refl, refl)
  set_query_params-map ((k, v) ∷ ps) rb =
      let (h, q) = set_query_params-map ps (set_query_param k v rb) in
      (h, q ∙ ap (write_all (replacing (λ k. k) ps)) (set_values-values k v rb.query_params))

  set_path_params-map :
      (ps : List (String × String)) (rb : RequestBuilder)
      → (header_map (set_path_params ps rb) ≡ header_map rb)
        × (query_map (set_path_params ps rb) ≡ query_map rb)
  unfolding set_path_params set_path_param
  set_path_params-map [] rb = (refl, refl)
  set_path_params-map ((k, v) ∷ ps) rb = set_path_params-map ps (set_path_param k v rb)

  pub apply_setter-map :
      (s : Setter) (rb : RequestBuilder)
      → let rb' = apply_setter canonical base64 s rb in
        (header_map rb' ≡ write_all (header_writes s) (header_map rb))
        × (query_map rb' ≡ write_all (query_writes s) (query_map rb))
  unfolding apply_setter set_context set_timeout set_header add_header set_content_type set_accept
      set_user_agent set_auth_token set_basic_auth set_query_param add_query_param set_path_param
      set_body set_body_bytes set_body_form set_body_marshaled
  apply_setter-map (Setter.with_context ctx) rb = (refl, refl)
  apply_setter-map (Setter.with_timeout d) rb = (refl, refl)
  apply_setter-map (Setter.with_header k v) rb = (set_values-values _ v rb.headers, refl)
  apply_setter-map (Setter.with_headers hs) rb = set_headers-map hs rb
  apply_setter-map (Setter.with_added_header k v) rb = (add_value-values _ v rb.headers, refl)
  apply_setter-map (Setter.with_content_type v) rb = (set_values-values _ v rb.headers, refl)
  apply_setter-map (Setter.with_accept v) rb = (set_values-values _ v rb.headers, refl)
  apply_setter-map (Setter.with_user_agent v) rb = (set_values-values _ v rb.headers, refl)
  apply_setter-map (Setter.with_auth_token t) rb = (set_values-values _ _ rb.headers, refl)
  apply_setter-map (Setter.with_basic_auth u p) rb = (set_values-values _ _ rb.headers, refl)
  apply_setter-map (Setter.with_query_param k v) rb = (refl, set_values-values k v rb.query_params)
  apply_setter-map (Setter.with_query_params ps) rb = set_query_params-map ps rb
  apply_setter-map (Setter.with_added_query_param k v) rb =
      (refl, add_value-values k v rb.query_params)
  apply_setter-map (Setter.with_path_param k v) rb = (refl, refl)
  apply_setter-map (Setter.with_path_params ps) rb = set_path_params-map ps rb
  apply_setter-map (Setter.with_body src) rb = (refl, refl)
  apply_setter-map (Setter.with_body_bytes bs) rb = (refl, refl)
  apply_setter-map (Setter.with_body_form form) rb = (set_values-values _ _ rb.headers, refl)
  apply_setter-map (Setter.with_body_json (marshaled bs)) rb =
      (set_values-values _ _ rb.headers, refl)
  apply_setter-map (Setter.with_body_json (unsupported e)) rb = (refl, refl)
  apply_setter-map (Setter.with_body_xml (marshaled bs)) rb =
      (set_values-values _ _ rb.headers, refl)
  apply_setter-map (Setter.with_body_xml (unsupported e)) rb = (refl, refl)
