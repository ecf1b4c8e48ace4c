-- ===== src/Report.antt =====
-- frontend/src/lib/ReportNode.ts: the tree of the report's elements. `Proto` has the messages,
-- `Node` the tree, `Frames` what the data frame libraries offer it, `ElementNode` the leaves and
-- `Root` the root with the deltas that it applies. The other modules prove.
pub mod Proto
pub mod Node
pub mod Frames
pub mod ElementNode
pub mod Root
pub mod Paths
pub mod Stale
pub mod Fresh
pub mod Current
pub mod Sections
pub mod Present
pub mod Deltas
pub mod Placed
mod Tests
