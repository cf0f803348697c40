-- ===== src/Backhaul.antt =====
-- lib/rtdoa_backhaul: packets with a tag's range differences and sensor readings, sent over the air
-- or to the device itself, received and printed.
pub mod Packet
pub mod State
pub mod Pool
pub mod Wait
pub mod Repeats
pub mod Send
pub mod Receive
pub mod Sensors
pub mod SensorFlags
pub mod Print
pub mod Fifo
pub mod Copied
pub mod Delivery
