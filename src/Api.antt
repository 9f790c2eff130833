-- ===== src/Api.antt =====
-- pkg/api/v1beta1: the API types and constants.
mod Types
mod Constants
pub use Types.*
pub use Constants.*
