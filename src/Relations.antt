-- ===== src/Relations.antt =====
-- components/Views/RelationsPlotView.tsx: the graph of relations.
pub mod Graph
pub mod Expanded
pub mod Once
pub mod Closed
mod Tests
