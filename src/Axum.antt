-- ===== src/Axum.antt =====
-- Routes as `axum::Router::route` accepts them (halyard/src/axum/).
pub mod RoutePath
pub mod Registry
