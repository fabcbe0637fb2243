-- ===== src/Load.antt =====
-- src/config.cpp: the configuration that the environment describes.
pub mod Result
pub mod Scalar
pub mod Host
pub mod Json
pub mod Events
pub mod Route
pub mod Settings
pub mod Routes
pub mod App
pub mod Valid
pub mod Upstreams
pub mod Checks
pub mod Placed
pub mod Keys
pub mod Loaded
pub mod Complete
pub mod Sound
pub mod Starts
mod Examples
pub mod Bounds
pub mod RoundTrip
