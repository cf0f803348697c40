-- ===== src/Tests.antt =====
-- The theorems at concrete inputs, and runs of the definitions.
mod Fixtures
mod Sending
mod Receiving
mod Slots
mod Changes
mod Devices
mod Links
mod Printing
mod Sensors
mod Lines
mod Listening
mod Runs
mod Starting
mod Delivering
mod Consoles
