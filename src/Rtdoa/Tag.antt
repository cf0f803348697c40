-- ===== src/Rtdoa/Tag.antt =====
-- apps/rtdoa_tag/src/main.c: a tag of the network, which listens and reports to its own console.
-- Each callback takes the pending flag `uwb_config_updated` where it touches it, and returns its
-- calls in order.
use uwb_apps.Prelude.{
  ℕ, zero, suc, ◌-◌, ◌%◌, ◌/◌, ◌^◌, Bool, true, false, not, ◌||◌, List, [], ◌∷◌, ◌++◌, ◌==◌,
  if◌then◌else◌,
}
use uwb_apps.Radio.{
  Cmd, mac_config, txrf_config, start_rx, rtdoa_listen, nmgr_process_tx, nmgr_listen, led, message,
}
use uwb_apps.Tdma.{Slot, in_ccp, listen_timeout}
use uwb_apps.Float.{FloatOps}
use uwb_apps.Backhaul.Packet.{Params}
use uwb_apps.Backhaul.State.{Backhaul, set_ts}
use uwb_apps.Backhaul.Send.{SendEnv, send}

-- `uwb_config_upd_cb`
unfoldable pub uwb_config_upd_cb : ℕ → Bool → Bool → Bool × List Cmd
uwb_config_upd_cb ccp_sem ccp_valid pending =
    if (ccp_sem == 0) || not ccp_valid
    then (pending, mac_config ∷ txrf_config ∷ (if ccp_sem == 0 then start_rx ∷ [] else []))
    else (true, [])

-- What `rtdoa_slot_timer_cb` reads after its listen: the CCP semaphore again, and
-- `uwb_wcs_local_to_master64` of the start of the slot; and the packet that it sends then.
pub record AfterListen : Type 0 where
  pub fails : Bool
  pub ccp_sem : ℕ
  pub master_time : ℕ
  pub env : SendEnv

-- `rtdoa_slot_timer_cb`: it listens, and then hands the ranges to the backhaul, off the air.
unfoldable pub rtdoa_slot_timer_cb :
    FloatOps → Params → Slot → AfterListen → Backhaul → Backhaul × List Cmd
rtdoa_slot_timer_cb ops k t a b =
    let calls =
      led true
      ∷ rtdoa_listen (t.rx_slot_start t.idx) (listen_timeout t)
      ∷ ((if a.fails then message ∷ [] else []) ++ led false ∷ []) in
    let sent = send ops k a.env 0 (set_ts (a.master_time / 2 ^ 16) b) in
    if in_ccp t then (b, []) else if a.ccp_sem == 0 then (b, calls) else (sent.0, calls ++ sent.1)

-- `nmgr_slot_timer_cb`: the new settings are written before the test for the CCP.
unfoldable pub nmgr_slot_timer_cb : Slot → Bool → Bool × List Cmd
nmgr_slot_timer_cb t pending =
    let config = if pending then mac_config ∷ txrf_config ∷ [] else [] in
    let work =
      nmgr_process_tx (t.tx_slot_start t.idx)
      ∷ (if t.nmgr_sends
          then []
          else nmgr_listen (t.rx_slot_start t.idx) (listen_timeout t) ∷ []) in
    (false, config ++ (if in_ccp t then [] else work))

-- The callbacks that `tdma_allocate_slots` assigns.
pub data Handler : Type 0 where
  nmgr rtdoa : Handler

-- The loop of `tdma_allocate_slots` from slot `i`, with the rounds that are left.
unfoldable pub allocate_loop : ℕ → ℕ → List (ℕ × Handler)
allocate_loop zero i = []
allocate_loop (suc r) i =
    let rest = allocate_loop r (suc i) in
    if i == 31 then rest else if (i % 12) == 0 then (i, nmgr) ∷ rest else (i, rtdoa) ∷ rest

unfoldable pub tdma_allocate_slots : ℕ → List (ℕ × Handler)
unfolding allocate_loop
tdma_allocate_slots nslots = allocate_loop (nslots - 2) 2
