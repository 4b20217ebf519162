-- ===== src/Wsdriver/ErrorReply/Examples.antt =====
-- The reply to a command for a session that has timed out.
