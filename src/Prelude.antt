-- ===== src/Prelude.antt =====
-- Shared names: those of the libraries that the other modules use, and those of the children.
mod Tests
mod Lists
mod Strings
mod Dicts
mod Sort
pub use Tests.*
unfoldable pub use Lists.*
unfoldable pub use Strings.*
unfoldable pub use Dicts.*
unfoldable pub use Sort.*
