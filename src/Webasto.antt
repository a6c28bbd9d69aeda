-- ===== src/Webasto.antt =====
-- FreakyCampManager/webasto.cpp: the control of the Webasto fuel burner.
mod Modules
mod Wait
mod Burner
pub mod Laws
unfoldable pub use Modules.*
unfoldable pub use Wait.*
unfoldable pub use Burner.*
