-- ===== src/Http.antt =====
-- JSON values and HTTP responses, as the crates build them with `serde_json`, `axum` and `http`.
pub mod Json
pub mod Response
