-- ===== src/Machine.antt =====
-- The state of the firmware, the monad of its operations and their logic.
mod State
mod Relays
mod Logic
mod Invariant
mod Arrays
mod Total
mod Safety
pub use State.*
unfoldable pub use Relays.*
pub use Invariant.*
pub use Arrays.*
pub use Total.*
pub use Safety.*
pub use Logic.*
