-- ===== src/Copies.antt =====
-- pkg/api/v1beta1/zz_generated.deepcopy.go: copies that share no memory with the original.
mod Stored
mod Heap
mod Cells
mod Defs
mod Objects
mod Stands
mod Yields
mod Parts
mod Fresh
pub use Stored.{
  TypeMeta, StoredAuth, StoredTls, StoredTransport, StoredSpec, StoredStatus, StoredServer,
  StoredList, Cell,
}
pub use Heap.{pure}
pub use Defs.{MetaLibrary, Memory}
pub use Objects.{Object, server_list}
unfoldable pub use Objects.{deep_copy_object}
pub use Stands.{Meanings, StandsSpec, StandsStatus}
pub use Fresh.{IsCopying, Value, many, StandsObject, deep_copy_object-StandsObject}
pub use Yields.{pure-Yields}
