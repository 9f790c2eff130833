-- ===== src/Flags.antt =====
-- The flags of a command: the fields that the code binds to them, the flag library as a parameter, and
-- what it means to give values to flags.
mod Defs
mod Dict
mod Refines
mod Settles
pub use Defs.{
  Flag, Setting, bool_var, int_var, duration_var, string_var, string_array_var, value_var,
  FlagLibrary, Readers, Declared, declared, Split, split_for, within,
}
unfoldable pub use Defs.{set_flag, set_named, set_all}
pub use Defs.{ParsesInOrder}
pub use Dict.{
  Value, bool_value, int_value, duration_value, string_value, strings_value, level_value, Values,
  find_value, put, view, outcome, assign_all, settle_flag,
}
pub use Refines.{RespectsAt, SetsAt, set_all-Simulates}
pub use Settles.{assign_all-settle}
