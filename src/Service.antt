-- ===== src/Service.antt =====
-- service/service.go, service/driver.go and service/docker.go: the choice of the starter, and the starters.
pub mod Manager
pub mod Driver
pub mod Docker
pub mod Wait
