-- ===== src/Wire.antt =====
-- The parser and printer combinators that the wire formats are written with. The crates nom and
-- cookie_factory are not part of the repository: each is a record of the operations that
-- the code calls, with their documented behaviour as laws. nom's streaming parsers ask for more
-- input where it ends too soon. The context strings of errors are left out, and so is the call
-- `error_context` that adds them.
mod Defs
mod Instance
mod Laws
pub mod Reads
pub use Defs.*
pub use Laws.*
unfoldable pub use Instance.{nom, cookie}
