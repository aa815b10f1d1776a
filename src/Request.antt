-- ===== src/Request.antt =====
-- request.go: `RequestBuilder`. net/url, the encoders and http.NewRequest's checks are parameters.
-- Go ranges over a map in any order; the lists that stand for maps here are in the order of that
-- run.
pub mod Execute
pub mod Buffering
pub mod Replay
pub mod Release
pub mod Reuse
pub mod Setters
use go_httpclient.Shared.{
  ℕ, zero, suc, ◌+◌, ◌-◌, Bool, true, false, Option, none, some, List, [], ◌∷◌, ◌++◌, String, leb,
  length, if◌then◌else◌,
}
use Prim.Native.String.{◌++◌ as str_append}
use text.Mathlib.Text.{◌==◌ as str_eq}
use go_httpclient.Shared.Int.{ℤ, pos, leb_ℤ}
use go_httpclient.Http.Error.{Err}
use go_httpclient.Http.Message.{Body, Header, Context, Outcome, refuse}
use go_httpclient.Http.World.{
  World, Request, RoundTripper, Fetched, ok, emit, panicked, with_timeout, settle,
}
use go_httpclient.Client.{background, do_request}

-- What an `io.Reader` will give: some bytes, and then its end or an error.
pub record Source : Type 0 where
  pub content : List ℕ
  pub failure : Option Err

-- A reader that the builder makes: `bytes.NewReader`, or `io.MultiReader` of that and the rest of a
-- source.
pub data Sending : Type 0 where
  from_bytes : List ℕ → Sending
  spliced : List ℕ → Source → Sending

pub record RequestBuilder : Type 0 where
  pub ctx : Option Context
  pub method : String
  pub url : String
  pub headers : Header
  pub query_params : Header
  pub path_params : List (String × String)
  pub body : Option Source
  pub body_bytes : Option (List ℕ)
  pub timeout : ℤ
  pub err : Option Err

-- `Client.R`
unfoldable pub new_builder : RequestBuilder
new_builder = record {
  ctx = some background;
  method = "";
  url = "";
  headers = [];
  query_params = [];
  path_params = [];
  body = none;
  body_bytes = none;
  timeout = pos 0;
  err = none;
}

-- `Set` and `Add` of a map from keys to lists of values.
unfoldable pub set_values : String → String → Header → Header
set_values k v [] = (k, v ∷ []) ∷ []
set_values k v ((k', vs) ∷ h) =
    let rest = set_values k v h in if str_eq k' k then (k, v ∷ []) ∷ h else (k', vs) ∷ rest

unfoldable pub add_value : String → String → Header → Header
add_value k v [] = (k, v ∷ []) ∷ []
add_value k v ((k', vs) ∷ h) =
    let rest = add_value k v h in if str_eq k' k then (k, vs ++ v ∷ []) ∷ h else (k', vs) ∷ rest

-- `m[k] = v` of a map of strings.
unfoldable pub put_param : String → String → List (String × String) → List (String × String)
put_param k v [] = (k, v) ∷ []
put_param k v ((k', v') ∷ m) =
    let rest = put_param k v m in if str_eq k' k then (k, v) ∷ m else (k', v') ∷ rest

unfoldable pub set_context : Option Context → RequestBuilder → RequestBuilder
set_context ctx rb = record rb { ctx = ctx }

unfoldable pub set_timeout : ℤ → RequestBuilder → RequestBuilder
set_timeout d rb = record rb { timeout = d }

unfoldable pub set_query_param : String → String → RequestBuilder → RequestBuilder
set_query_param k v rb = record rb { query_params = set_values k v rb.query_params }

unfoldable pub set_query_params : List (String × String) → RequestBuilder → RequestBuilder
set_query_params [] rb = rb
set_query_params ((k, v) ∷ ps) rb = set_query_params ps (set_query_param k v rb)

unfoldable pub add_query_param : String → String → RequestBuilder → RequestBuilder
add_query_param k v rb = record rb { query_params = add_value k v rb.query_params }

unfoldable pub set_path_param : String → String → RequestBuilder → RequestBuilder
set_path_param k v rb = record rb { path_params = put_param k v rb.path_params }

unfoldable pub set_path_params : List (String × String) → RequestBuilder → RequestBuilder
set_path_params [] rb = rb
set_path_params ((k, v) ∷ ps) rb = set_path_params ps (set_path_param k v rb)

unfoldable pub set_body : Option Source → RequestBuilder → RequestBuilder
set_body body rb = record rb { body = body }

-- A nil slice is `none`; its reader is at its end.
abbrev pub slice_content : Option (List ℕ) → List ℕ
slice_content none = []
slice_content (some bs) = bs

unfoldable pub set_body_bytes : Option (List ℕ) → RequestBuilder → RequestBuilder
set_body_bytes bs rb = record rb {
  body = some (record { content = slice_content bs; failure = none });
  body_bytes = bs;
}

-- What `json.Marshal` or `xml.Marshal` made of a value.
pub data Marshaled : Type 0 where
  marshaled : List ℕ → Marshaled
  unsupported : Err → Marshaled

-- The key of a header in canonical form is given by `canonical`.
module _ (canonical : String → String) where
  unfoldable pub set_header : String → String → RequestBuilder → RequestBuilder
  set_header k v rb = record rb { headers = set_values (canonical k) v rb.headers }

  unfoldable pub set_headers : List (String × String) → RequestBuilder → RequestBuilder
  set_headers [] rb = rb
  set_headers ((k, v) ∷ hs) rb = set_headers hs (set_header k v rb)

  unfoldable pub add_header : String → String → RequestBuilder → RequestBuilder
  add_header k v rb = record rb { headers = add_value (canonical k) v rb.headers }

  unfoldable pub set_content_type : String → RequestBuilder → RequestBuilder
  unfolding set_header
  set_content_type v rb = set_header "Content-Type" v rb

  unfoldable pub set_auth_token : String → RequestBuilder → RequestBuilder
  unfolding set_header
  set_auth_token token rb = set_header "Authorization" (str_append "Bearer " token) rb

  unfoldable pub set_accept : String → RequestBuilder → RequestBuilder
  unfolding set_header
  set_accept v rb = set_header "Accept" v rb

  unfoldable pub set_user_agent : String → RequestBuilder → RequestBuilder
  unfolding set_header
  set_user_agent v rb = set_header "User-Agent" v rb

  -- `SetBasicAuth`, with base64 given.
  unfoldable pub set_basic_auth :
      (String → String) → String → String → RequestBuilder → RequestBuilder
  set_basic_auth base64 user password rb = record rb {
    headers =
        set_values (canonical "Authorization")
          (str_append "Basic " (base64 (str_append user (str_append ":" password)))) rb.headers;
  }

  -- `SetBodyForm`: the pairs as a form are `form`, which is `url.Values.Encode` of them.
  unfoldable pub set_body_form : List ℕ → RequestBuilder → RequestBuilder
  unfolding set_content_type set_body_bytes
  set_body_form form rb =
      set_body_bytes (some form) (set_content_type "application/x-www-form-urlencoded" rb)

  -- `SetBodyJSON` and `SetBodyXML`, which differ in the type of the content.
  unfoldable pub set_body_marshaled : String → Marshaled → RequestBuilder → RequestBuilder
  unfolding set_content_type set_body_bytes
  set_body_marshaled content_type (unsupported e) rb = record rb { err = some e }
  set_body_marshaled content_type (marshaled bs) rb =
      set_body_bytes (some bs) (set_content_type content_type rb)
