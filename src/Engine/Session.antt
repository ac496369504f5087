-- ===== src/Engine/Session.antt =====
-- internal/engine/session.go: one held IRC socket. Each method is a function from the session to
-- the session after it; what it asks of the world (waking a link, ending the session, freeing
-- shared budget) is a list of effects. `used` is the byte counter that all sessions share.
pub mod State
pub mod Track
pub mod Stream
pub mod Attach
pub mod Steps
pub mod Examples
