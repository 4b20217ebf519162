-- ===== src/Session.antt =====
-- session/session.go: capabilities, sessions and the map of the sessions that run.
pub mod Caps
pub mod Store
pub mod Samples
