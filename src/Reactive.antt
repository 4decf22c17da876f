-- ===== src/Reactive.antt =====
-- The reactive graph (halyard_reactive_graph/src/).
pub mod Reentry
pub mod PageData
pub mod Graph
pub mod Observer
