-- ===== src/Diagnostics.antt =====
-- diagnostics.go. What the callback does is the caller's; that it was called is an event.
pub mod Reports
use go_httpclient.Shared.{String, if◌then◌else◌}
use go_httpclient.Http.World.{World, emit, invalid_config}

-- `reportInvalidConfig`
unfoldable pub report_invalid_config : String → World → World
report_invalid_config component w =
    if w.on_invalid_config then emit (invalid_config component) w else w
