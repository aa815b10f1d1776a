-- ===== src/Request/Setters.antt =====
-- The methods of request.go's `RequestBuilder` that return the builder, as one type, so that a
-- chain of calls is a list.
pub mod Maps
pub mod Headers
pub mod Sent
pub mod Failing
use go_httpclient.Shared.{ℕ, Option, none, some, List, [], ◌∷◌, String}
use go_httpclient.Shared.Int.{ℤ}
use go_httpclient.Http.Message.{Context}
use go_httpclient.Request.{
  Source, Marshaled, RequestBuilder, set_context, set_timeout, set_header, set_headers, add_header,
  set_content_type, set_accept, set_user_agent, set_auth_token, set_basic_auth, set_query_param,
  set_query_params, add_query_param, set_path_param, set_path_params, set_body, set_body_bytes,
  set_body_form, set_body_marshaled,
}

-- `SetBodyString` is `with_body_bytes` of the text's bytes.
pub data Setter : Type 0 where
  with_context : Option Context → Setter
  with_timeout : ℤ → Setter
  with_header : String → String → Setter
  with_headers : List (String × String) → Setter
  with_added_header : String → String → Setter
  with_content_type : String → Setter
  with_accept : String → Setter
  with_user_agent : String → Setter
  with_auth_token : String → Setter
  with_basic_auth : String → String → Setter
  with_query_param : String → String → Setter
  with_query_params : List (String × String) → Setter
  with_added_query_param : String → String → Setter
  with_path_param : String → String → Setter
  with_path_params : List (String × String) → Setter
  with_body : Option Source → Setter
  with_body_bytes : Option (List ℕ) → Setter
  with_body_form : List ℕ → Setter
  with_body_json : Marshaled → Setter
  with_body_xml : Marshaled → Setter

module _ (canonical : String → String) (base64 : String → String) where
  unfoldable pub apply_setter : Setter → RequestBuilder → RequestBuilder
  apply_setter (with_context ctx) rb = set_context ctx rb
  apply_setter (with_timeout d) rb = set_timeout d rb
  apply_setter (with_header k v) rb = set_header canonical k v rb
  apply_setter (with_headers hs) rb = set_headers canonical hs rb
  apply_setter (with_added_header k v) rb = add_header canonical k v rb
  apply_setter (with_content_type v) rb = set_content_type canonical v rb
  apply_setter (with_accept v) rb = set_accept canonical v rb
  apply_setter (with_user_agent v) rb = set_user_agent canonical v rb
  apply_setter (with_auth_token t) rb = set_auth_token canonical t rb
  apply_setter (with_basic_auth u p) rb = set_basic_auth canonical base64 u p rb
  apply_setter (with_query_param k v) rb = set_query_param k v rb
  apply_setter (with_query_params ps) rb = set_query_params ps rb
  apply_setter (with_added_query_param k v) rb = add_query_param k v rb
  apply_setter (with_path_param k v) rb = set_path_param k v rb
  apply_setter (with_path_params ps) rb = set_path_params ps rb
  apply_setter (with_body src) rb = set_body src rb
  apply_setter (with_body_bytes bs) rb = set_body_bytes bs rb
  apply_setter (with_body_form form) rb = set_body_form canonical form rb
  apply_setter (with_body_json m) rb = set_body_marshaled canonical "application/json" m rb
  apply_setter (with_body_xml m) rb = set_body_marshaled canonical "application/xml" m rb

  abbrev pub apply_setters : List Setter → RequestBuilder → RequestBuilder
  apply_setters [] rb = rb
  apply_setters (s ∷ ss) rb = apply_setters ss (apply_setter s rb)
