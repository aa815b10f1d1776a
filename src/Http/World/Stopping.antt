-- ===== src/Http/World/Stopping.antt =====
-- `unless_stopped`, where only the rest matters (middleware.go).
use go_httpclient.Shared.{◌≡◌, refl, Option, none, some}
use go_httpclient.Http.Error.{Err}
use go_httpclient.Http.Message.{Outcome}
use go_httpclient.Http.World.{World, Request, unless_stopped}

-- Two continuations that agree where nothing stops are the same to it.
pub unless_stopped_same :
    (req : Request) (o : Option Err) (v : World) (go go' : World → Outcome × World)
    → (o ≡ none → go v ≡ go' v)
    → unless_stopped req o v go ≡ unless_stopped req o v go'
unless_stopped_same req none v go go' h = h refl
unless_stopped_same req (some e) v go go' h = refl
