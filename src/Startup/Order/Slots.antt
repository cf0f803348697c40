-- ===== src/Startup/Order/Slots.antt =====
-- The clock calibration and the slots in the start-ups of all the applications.
use uwb_apps.Prelude.{◌≡◌, ◌||◌, List, [], ◌∷◌, ◌++◌, if◌then◌else◌, ◌==◌, arith, ◌-◌}
use uwb_apps.Twr.Nranges
use uwb_apps.Rtdoa.Node
use uwb_apps.Rtdoa.Tag
use uwb_apps.Streaming
use uwb_apps.Startup.{CcpRole, ccp_master, ccp_slave, ccp_relay, Device, set_field, rxdiag_enable}
use uwb_apps.Startup.Ranging.{nranges_main, node_main, tag_main, aloha_main, each_slot, udev}
use uwb_apps.Startup.Location.{bypass, rtdoa_node_main, rtdoa_tag_main}
use uwb_apps.Startup.Others.{
  streaming_main, tdoa_main, ota_master_main, ota_slave_main, listener_main,
}
use uwb_apps.Tdoa.{uwb_sleep, init_timer}
use uwb_apps.Startup.Order.{
  App, nranges, twr_node, twr_tag, aloha, rtdoa_node, rtdoa_tag, streaming, tdoa_tag, ota_master,
  ota_slave, listener, start, ccp_roles, ccp_roles-assign_all, after_slots, after_stream,
}

-- The role that an application starts the clock calibration with, if it has slots.
abbrev pub ccp_role : App → Device → List CcpRole
ccp_role (nranges b survey slots) d = (if d.is_ccp_master then ccp_master else ccp_slave) ∷ []
ccp_role (twr_node b dual) d = (if d.is_ccp_master then ccp_master else ccp_slave) ∷ []
ccp_role (twr_tag b) d = ccp_slave ∷ []
ccp_role (rtdoa_node nslots esp) d = (if d.is_ccp_master then ccp_master else ccp_relay) ∷ []
ccp_role (rtdoa_tag nslots esp rate) d = ccp_slave ∷ []
ccp_role (streaming b) d =
    (if d.is_ccp_master || (b.transport_role == 0) then ccp_master else ccp_slave) ∷ []
ccp_role _ d = []

-- An application starts the clock calibration once if it has slots, and else never. A tag is always a
-- slave; the others are the master if their role says so (in apps/streaming also by the transport
-- role 0), and else slaves, or relays in apps/rtdoa_node.
one_ccp : (a : App) (d : Device) → ccp_roles (start a d) ≡ ccp_role a d
unfolding nranges_main node_main tag_main aloha_main rtdoa_node_main rtdoa_tag_main streaming_main
    tdoa_main ota_master_main ota_slave_main listener_main uwb_sleep init_timer
one_ccp (nranges b survey slots) d =
    ground (arith, ccp_roles-assign_all (Nranges.assign_slots survey slots b.nslots) [])
one_ccp (twr_node b dual) d = ground (
  arith,
  ccp_roles-assign_all (each_slot (b.nslots - 1) 1)
      (set_field (udev dual) rxdiag_enable b.verbose ∷ []),
)
one_ccp (twr_tag b) d = ground (
  arith,
  ccp_roles-assign_all (each_slot (b.nslots - 1) 1) (set_field 0 rxdiag_enable b.verbose ∷ []),
)
one_ccp (aloha b ack ticks address) d = ground arith
one_ccp (rtdoa_node nslots esp) d =
    ground (arith, ccp_roles-assign_all (Node.tdma_allocate_slots nslots) (bypass esp ++ []))
one_ccp (rtdoa_tag nslots esp rate) d =
    ground (arith, ccp_roles-assign_all (Tag.tdma_allocate_slots nslots) (after_slots esp rate))
one_ccp (streaming b) d =
    ground
      (arith, ccp_roles-assign_all (Streaming.assign_slots b.concurrent b.nslots) (after_stream b))
one_ccp (tdoa_tag ble ticks) d = ground arith
one_ccp (ota_master ble file ticks) d = ground arith
one_ccp (ota_slave file ticks) d = ground arith
one_ccp (listener b rx_diag d1) d = ground arith
