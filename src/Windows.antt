-- ===== src/Windows.antt =====
-- src/windows/*.c: parts of the backend for Windows whose logic is the library's own.
pub mod ErrorCode
pub mod Errors
pub mod HardwareIds
pub mod Device
pub mod Listing
mod Tests
