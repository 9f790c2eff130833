-- ===== src/Go.antt =====
-- What the program uses of Go: errors, results with panics, and `map[string]string`.
mod Errors
mod Monad
mod Maps
mod Reasoning
mod Checks
pub use Errors.{
  GoError, status, text, wrap, join_one, join_two, StatusReason, not_found, other_reason,
}
pub use Errors.{errorf_w, errorf_v, join}
unfoldable pub use Errors.{error_text, note_if}
pub use Monad.*
unfoldable pub use Maps.{lookup, value_or_empty, insert}
pub use Maps.{StringMap, lookup-insert}
pub use Reasoning.*
pub use Checks.*
