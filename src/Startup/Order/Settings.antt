-- ===== src/Startup/Order/Settings.antt =====
-- The settings in the start-ups of all the applications.
use uwb_apps.Prelude.{ℕ, ◌≡◌, true, false, [], ◌∷◌, ◌++◌, count_if, if◌then◌else◌, arith, ◌-◌}
use uwb_apps.Twr.Nranges
use uwb_apps.Rtdoa.Node
use uwb_apps.Rtdoa.Tag
use uwb_apps.Streaming
use uwb_apps.Startup.{Device, set_field, rxdiag_enable}
use uwb_apps.Startup.Ranging.{nranges_main, node_main, tag_main, aloha_main, each_slot, udev}
use uwb_apps.Startup.Location.{bypass, rtdoa_node_main, rtdoa_tag_main}
use uwb_apps.Startup.Others.{
  streaming_main, tdoa_main, ota_master_main, ota_slave_main, listener_main,
}
use uwb_apps.Tdoa.{uwb_sleep, init_timer}
use uwb_apps.Startup.Order.{
  App, nranges, twr_node, twr_tag, aloha, rtdoa_node, rtdoa_tag, streaming, tdoa_tag, ota_master,
  ota_slave, listener, start, is_load, is_register, none_after, settings-assign_all, after_slots,
  after_stream,
}

-- How often the settings are registered and loaded.
abbrev pub registrations : App → ℕ
registrations (streaming b) = if b.uwbcfg then 1 else 0
registrations (tdoa_tag ble ticks) = 2
registrations (ota_master ble file ticks) = 0
registrations (ota_slave file ticks) = 0
registrations (listener b rx_diag d1) = 2
registrations _ = 1

abbrev pub loads : App → ℕ
loads (streaming b) = if b.uwbcfg then 1 else 0
loads (tdoa_tag ble ticks) = 0
loads (ota_master ble file ticks) = 0
loads (ota_slave file ticks) = 0
loads _ = 1

-- The applications with settings register all of them before they load them, and load them once; but
-- apps/tdoa_tag, which registers two, never loads what is stored.
pub settings_loaded :
    (a : App) (d : Device)
    → (count_if is_register (start a d) ≡ registrations a)
      × (count_if is_load (start a d) ≡ loads a)
      × (none_after is_load is_register false (start a d) ≡ true)
unfolding nranges_main node_main tag_main aloha_main rtdoa_node_main rtdoa_tag_main streaming_main
    tdoa_main ota_master_main ota_slave_main listener_main uwb_sleep init_timer
settings_loaded (nranges b survey slots) d = (
  ground (arith, (settings-assign_all (Nranges.assign_slots survey slots b.nslots) []).0),
  ground (arith, (settings-assign_all (Nranges.assign_slots survey slots b.nslots) []).1),
  ground (
    arith,
    (settings-assign_all (Nranges.assign_slots survey slots b.nslots) []).2 true,
    (settings-assign_all (Nranges.assign_slots survey slots b.nslots) []).2 false,
  ),
)
settings_loaded (twr_node b dual) d = (
  ground (
    arith,
    (settings-assign_all (each_slot (b.nslots - 1) 1)
        (set_field (udev dual) rxdiag_enable b.verbose ∷ [])).0,
  ),
  ground (
    arith,
    (settings-assign_all (each_slot (b.nslots - 1) 1)
        (set_field (udev dual) rxdiag_enable b.verbose ∷ [])).1,
  ),
  ground (
    arith,
    (settings-assign_all (each_slot (b.nslots - 1) 1)
          (set_field (udev dual) rxdiag_enable b.verbose ∷ [])).2
        true,
    (settings-assign_all (each_slot (b.nslots - 1) 1)
          (set_field (udev dual) rxdiag_enable b.verbose ∷ [])).2
        false,
  ),
)
settings_loaded (twr_tag b) d = (
  ground (
    arith,
    (settings-assign_all (each_slot (b.nslots - 1) 1) (set_field 0 rxdiag_enable b.verbose ∷ [])).0,
  ),
  ground (
    arith,
    (settings-assign_all (each_slot (b.nslots - 1) 1) (set_field 0 rxdiag_enable b.verbose ∷ [])).1,
  ),
  ground (
    arith,
    (settings-assign_all (each_slot (b.nslots - 1) 1) (set_field 0 rxdiag_enable b.verbose ∷ [])).2
        true,
    (settings-assign_all (each_slot (b.nslots - 1) 1) (set_field 0 rxdiag_enable b.verbose ∷ [])).2
        false,
  ),
)
settings_loaded (aloha b ack ticks address) d = (ground arith, ground arith, ground arith)
settings_loaded (rtdoa_node nslots esp) d = (
  ground (arith, (settings-assign_all (Node.tdma_allocate_slots nslots) (bypass esp ++ [])).0),
  ground (arith, (settings-assign_all (Node.tdma_allocate_slots nslots) (bypass esp ++ [])).1),
  ground (
    arith,
    (settings-assign_all (Node.tdma_allocate_slots nslots) (bypass esp ++ [])).2 true,
    (settings-assign_all (Node.tdma_allocate_slots nslots) (bypass esp ++ [])).2 false,
  ),
)
settings_loaded (rtdoa_tag nslots esp rate) d = (
  ground (arith, (settings-assign_all (Tag.tdma_allocate_slots nslots) (after_slots esp rate)).0),
  ground (arith, (settings-assign_all (Tag.tdma_allocate_slots nslots) (after_slots esp rate)).1),
  ground (
    arith,
    (settings-assign_all (Tag.tdma_allocate_slots nslots) (after_slots esp rate)).2 true,
    (settings-assign_all (Tag.tdma_allocate_slots nslots) (after_slots esp rate)).2 false,
  ),
)
settings_loaded (streaming b) d = (
  ground (
    arith,
    (settings-assign_all (Streaming.assign_slots b.concurrent b.nslots) (after_stream b)).0,
  ),
  ground (
    arith,
    (settings-assign_all (Streaming.assign_slots b.concurrent b.nslots) (after_stream b)).1,
  ),
  ground (
    arith,
    (settings-assign_all (Streaming.assign_slots b.concurrent b.nslots) (after_stream b)).2 true,
    (settings-assign_all (Streaming.assign_slots b.concurrent b.nslots) (after_stream b)).2 false,
  ),
)
settings_loaded (tdoa_tag ble ticks) d = (ground arith, ground arith, ground arith)
settings_loaded (ota_master ble file ticks) d = (ground arith, ground arith, ground arith)
settings_loaded (ota_slave file ticks) d = (ground arith, ground arith, ground arith)
settings_loaded (listener b rx_diag d1) d = (ground arith, ground arith, ground arith)
