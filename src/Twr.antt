-- ===== src/Twr.antt =====
-- The two-way ranging applications: apps/twr_nranges_tdma, apps/twr_node_tdma, apps/twr_tag_tdma and
-- apps/twr_aloha.
pub mod Nranges
pub mod Node
pub mod Tag
pub mod Aloha
pub mod Timeouts
pub mod Sharing
pub mod Rotation
pub mod Plan
