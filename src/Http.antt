-- ===== src/Http.antt =====
-- The values that the client hands about: errors, requests, responses, and the world in which a
-- round trip runs.
pub mod Error
pub mod Message
pub mod World
