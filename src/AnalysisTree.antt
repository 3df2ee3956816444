-- ===== src/AnalysisTree.antt =====
-- src/core/analysis_model.cpp and its header: the tree of analysis nodes. A node stands at its
-- identifier less one, `QVariant` is a type parameter, and the counter of tree identities, a
-- global of the source, is passed along.
mod Nodes
mod Operations
pub mod Reads
pub mod Changes
pub mod Family
pub mod Commands
pub mod Restore
pub mod Terminal
mod Locate
pub mod Covers
pub mod Depths
pub mod Ranks
pub mod MostSpecific
unfoldable pub use Nodes.*
unfoldable pub use Operations.*
unfoldable pub use Locate.*
