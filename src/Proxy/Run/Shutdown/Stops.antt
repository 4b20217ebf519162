-- ===== src/Proxy/Run/Shutdown/Stops.antt =====
-- What main.go stops when it ends.
