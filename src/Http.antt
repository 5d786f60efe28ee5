-- ===== src/Http.antt =====
-- Header maps of net/http and the messages of internal/model/intercept.go.
pub mod Header
pub mod Message
