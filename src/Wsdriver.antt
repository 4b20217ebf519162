-- ===== src/Wsdriver.antt =====
-- The package wsdriver: WebDriver commands over a WebSocket.
pub mod Bytes
pub mod Message
pub mod Codecs
mod Samples
pub mod Request
pub mod Response
pub mod ErrorReply
pub mod HttpRequest
pub mod Connection
