-- ===== src/Http/Message.antt =====
-- Responses, bodies and contexts of net/http and context, as far as the middleware reads them.
use go_httpclient.Shared.{ℕ, Option, none, some, List, [], ◌∷◌, String, if◌then◌else◌}
use go_httpclient.Shared.Int.{ℤ}
use go_httpclient.Http.Error.{Err}
use text.Mathlib.Text.{◌==◌}

-- A body is named by a number, so that the world can record what is done to it. `no_body` is
-- `http.NoBody`; `cancel_body` is timeout.go's wrapper, which cancels a context when it is closed.
pub data Body : Type 0 where
  no_body : Body
  stream : ℕ → Body
  cancel_body : Body → ℕ → Body

-- `http.Header`, its keys in canonical form.
abbrev pub Header : Type 0
Header = List (String × List String)

-- `Header.Get` of a key in canonical form: its first value, or "".
unfoldable pub get : String → Header → String
get key [] = ""
get key ((k, vs) ∷ h) = if k == key then elim vs [ [] ↦ "" | v ∷ rest ↦ v ] else get key h

pub record Response : Type 0 where
  pub status_code : ℕ
  pub header : Header
  pub body : Option Body
  pub content_length : ℤ

-- What a `RoundTrip` returns: `(*http.Response, error)`.
pub record Outcome : Type 0 where
  pub resp : Option Response
  pub err : Option Err

-- `return resp, nil`
abbrev pub answer : Response → Outcome
answer r = record { resp = some r; err = none }

-- `return nil, err`
abbrev pub refuse : Err → Outcome
refuse e = record { resp = none; err = some e }

-- A context: its number, its deadline, and the time at which its owner cancels it, if ever. The
-- program cannot see the last in advance; it is what the environment will do.
pub record Context : Type 0 where
  pub id : ℕ
  pub deadline : Option ℤ
  pub cancel_at : Option ℤ
