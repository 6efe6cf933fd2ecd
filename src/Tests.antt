-- ===== src/Tests.antt =====
-- Concrete devices and inputs: the theorems at work, and runs that can be followed in the source.
mod Disk
mod Editing
mod Devices
mod Buses
mod Commands
mod Helpers
mod Identity
mod Lines
mod Pages
mod Ports
mod Session
mod Switching
mod Table
mod Typed
mod Watching
mod Wire
