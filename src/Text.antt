-- ===== src/Text.antt =====
-- Go's `string` as the list of its code points, and the functions of package `strings` that the
-- program calls.
mod Base
mod Facts
unfoldable pub use Base.*
pub use Facts.*
