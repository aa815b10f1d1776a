-- ===== src/Request/Setters/Failing.antt =====
-- A value that cannot be marshaled (request.go, `SetBodyJSON`, `SetBodyXML` and `execute`).
use go_httpclient.Shared.{◌≡◌, refl, ap, ◌∙◌, Option, none, some, List, [], ◌∷◌, String}
use go_httpclient.Http.Error.{Err}
use go_httpclient.Http.Message.{refuse}
use go_httpclient.Http.World.{World, RoundTripper}
use go_httpclient.Request.{
  unsupported, RequestBuilder, set_header, set_headers, set_query_param, set_query_params,
  set_path_param, set_path_params, new_builder, marshaled, set_context, set_timeout, add_header,
  set_content_type, set_accept, set_user_agent, set_auth_token, set_basic_auth, add_query_param,
  set_body, set_body_bytes, set_body_form, set_body_marshaled,
}
use go_httpclient.Request.Execute.{Net, build, execute_method}
use go_httpclient.Request.Setters.{Setter, apply_setter, apply_setters}

-- The error that a call leaves behind, where `before` was there.
abbrev left_by : Setter → Option Err → Option Err
left_by (Setter.with_body_json (unsupported e)) before = some e
left_by (Setter.with_body_xml (unsupported e)) before = some e
left_by s before = before

-- The error of the last call that could not marshal its value.
abbrev pub last_failure : List Setter → Option Err → Option Err
last_failure [] before = before
last_failure (s ∷ ss) before = last_failure ss (left_by s before)

module _ (canonical : String → String) (base64 : String → String) where
  headers-err :
      (hs : List (String × String)) (rb : RequestBuilder)
      → (set_headers canonical hs rb).err ≡ rb.err
  unfolding set_headers set_header
  headers-err [] rb = refl
  headers-err ((k, v) ∷ hs) rb = headers-err hs (set_header canonical k v rb)

  query-err :
      (ps : List (String × String)) (rb : RequestBuilder) → (set_query_params ps rb).err ≡ rb.err
  unfolding set_query_params set_query_param
  query-err [] rb = refl
  query-err ((k, v) ∷ ps) rb = query-err ps (set_query_param k v rb)

  path-err :
      (ps : List (String × String)) (rb : RequestBuilder) → (set_path_params ps rb).err ≡ rb.err
  unfolding set_path_params set_path_param
  path-err [] rb = refl
  path-err ((k, v) ∷ ps) rb = path-err ps (set_path_param k v rb)

  apply_setter-err :
      (s : Setter) (rb : RequestBuilder)
      → (apply_setter canonical base64 s rb).err ≡ left_by s rb.err
  unfolding apply_setter set_context set_timeout set_header add_header set_content_type set_accept
      set_user_agent set_auth_token set_basic_auth set_query_param add_query_param set_path_param
      set_body set_body_bytes set_body_form set_body_marshaled
  apply_setter-err (Setter.with_context ctx) rb = refl
  apply_setter-err (Setter.with_timeout d) rb = refl
  apply_setter-err (Setter.with_header k v) rb = refl
  apply_setter-err (Setter.with_headers hs) rb = headers-err hs rb
  apply_setter-err (Setter.with_added_header k v) rb = refl
  apply_setter-err (Setter.with_content_type v) rb = refl
  apply_setter-err (Setter.with_accept v) rb = refl
  apply_setter-err (Setter.with_user_agent v) rb = refl
  apply_setter-err (Setter.with_auth_token t) rb = refl
  apply_setter-err (Setter.with_basic_auth u p) rb = refl
  apply_setter-err (Setter.with_query_param k v) rb = refl
  apply_setter-err (Setter.with_query_params ps) rb = query-err ps rb
  apply_setter-err (Setter.with_added_query_param k v) rb = refl
  apply_setter-err (Setter.with_path_param k v) rb = refl
  apply_setter-err (Setter.with_path_params ps) rb = path-err ps rb
  apply_setter-err (Setter.with_body src) rb = refl
  apply_setter-err (Setter.with_body_bytes bs) rb = refl
  apply_setter-err (Setter.with_body_form form) rb = refl
  apply_setter-err (Setter.with_body_json (marshaled bs)) rb = refl
  apply_setter-err (Setter.with_body_json (unsupported e)) rb = refl
  apply_setter-err (Setter.with_body_xml (marshaled bs)) rb = refl
  apply_setter-err (Setter.with_body_xml (unsupported e)) rb = refl

  apply_setters-err :
      (ss : List Setter) (rb : RequestBuilder)
      → (apply_setters canonical base64 ss rb).err ≡ last_failure ss rb.err
  apply_setters-err [] rb = refl
  apply_setters-err (s ∷ ss) rb =
      apply_setters-err ss (apply_setter canonical base64 s rb)
      ∙ ap (last_failure ss) (apply_setter-err s rb)

  -- A value that could not be marshaled is not forgotten: whatever else is called on the builder
  -- before or after, a request with any method and URL is refused with the error of the last such
  -- value, and neither the client nor the world is touched. Where every value could be marshaled,
  -- no error is left in the builder.
  pub failed_marshaling_refuses :
      (net : Net) (client : RoundTripper) (ss : List Setter) (method url : String) (w : World)
      → let rb = apply_setters canonical base64 ss new_builder in
        ((e : Err)
          → last_failure ss none ≡ some e
          → execute_method net client method url rb w ≡ (refuse e, w))
        × (last_failure ss none ≡ none → rb.err ≡ none)
  unfolding execute_method build new_builder
  failed_marshaling_refuses net client ss method url w =
      let left = apply_setters-err ss new_builder in
      (λ e failed. rw (left ∙ failed) refl, λ fine. left ∙ fine)
