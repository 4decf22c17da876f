-- ===== src/Router.antt =====
-- Matching a URL's path against the segments of a route (halyard/src/router/matching/).
pub mod Segments
pub mod Tuples
pub mod Optionals
pub mod StaticRoutes
pub mod Nested
pub mod ResolvePath
mod Tests
