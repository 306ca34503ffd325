-- ===== src/Config.antt =====
-- The configuration of src/config: its limits, its validation and the loading of its file.
pub mod Hostname
pub mod Checks
pub mod Root
pub mod App
pub mod Loader
pub mod Startup
pub mod Cli
mod Tests
