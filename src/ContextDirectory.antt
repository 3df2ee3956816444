-- ===== src/ContextDirectory.antt =====
-- src/core/context_directory.cpp and its header: the directory of parameter sets and stream
-- configurations, by key and source position, with the dependencies between them.
mod Definitions
mod Lookups
mod Guards
mod Registration
pub mod Dependencies
pub mod Resolved
pub mod Entries
pub mod Registered
pub mod Accepted
pub mod Lasts
pub mod Visible
pub mod Latest
unfoldable pub use Definitions.*
unfoldable pub use Lookups.*
unfoldable pub use Guards.*
unfoldable pub use Registration.*
