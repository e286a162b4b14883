-- ===== src/Domain.antt =====
-- The domain layer (include/bmw_remote/domain): what is known of a vehicle at one time, and what
-- is known of a vehicle type.
mod Signals
mod Profile
pub use Signals.*
unfoldable pub use Profile.*
