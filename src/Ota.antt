-- ===== src/Ota.antt =====
-- apps/ota_uwb_master/src/main.c and apps/ota_uwb_slave/src/main.c: the timers that serve newtmgr
-- over UWB. What `uwb_nmgr_process_tx_queue` returns is an argument.
use uwb_apps.Prelude.{ℕ, ◌/◌, Bool, List, [], ◌∷◌, if◌then◌else◌}
use uwb_apps.Radio.{
  Cmd, nmgr_process_tx, nmgr_listen, set_rx_timeout, start_rx, callout_reset, message,
}

-- `uwb_ev_cb` of the master
unfoldable pub master_ev_cb : ℕ → Bool → List Cmd
master_ev_cb ticks_per_sec sends =
    callout_reset (ticks_per_sec / 25)
    ∷ nmgr_process_tx 0
    ∷ (if sends then set_rx_timeout 0 ∷ start_rx ∷ [] else [])

-- `uwb_ev_cb` of the slave
unfoldable pub slave_ev_cb : ℕ → Bool → List Cmd
slave_ev_cb ticks_per_sec sends =
    nmgr_process_tx 0
    ∷ (if sends
        then message ∷ callout_reset (ticks_per_sec / 50) ∷ []
        else nmgr_listen 0 0xffff ∷ callout_reset (ticks_per_sec / 50) ∷ [])
