-- ===== src/Tests.antt =====
-- The theorems at concrete inputs.
pub mod Platform
pub mod Sensors
pub mod Update
pub mod Download
pub mod Network
pub mod Apn
pub mod Kernel
pub mod Devices
pub mod Converter
pub mod Bridge
pub mod Positions
pub mod Serial
pub mod World
pub mod Program
pub mod Board
