-- ===== src/Rtdoa.antt =====
-- apps/rtdoa_node and apps/rtdoa_tag: the anchors and the tags of one reverse TDoA network.
pub mod Node
pub mod Tag
pub mod Sensors
pub mod Slots
pub mod Turns
pub mod Console
