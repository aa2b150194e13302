-- ===== src/World.antt =====
-- The store that the parts of the daemon share, and what lies outside the sources.
mod Store
mod Outside
mod Total
mod Frame
mod Trace
unfoldable pub use Store.*
pub use Outside.*
pub use Total.*
pub use Frame.*
pub use Trace.*
