-- ===== src/Create.antt =====
-- selenoid.go, `create`: a new session, from the request to the session in the map.
--
-- The handler yields what it does to the queue, to the started browser, to the client and to the map, in
-- order. A panic ends it: net/http recovers it, and none of these actions follows.
pub mod Body
pub mod Attempts
pub mod Choice
pub mod Handler
