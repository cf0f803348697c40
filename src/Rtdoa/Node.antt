-- ===== src/Rtdoa/Node.antt =====
-- apps/rtdoa_node/src/main.c: an anchor of the network. Each callback takes the pending flag
-- `uwb_config_updated` where it touches it, and returns its calls in order.
use uwb_apps.Prelude.{
  ℕ, zero, suc, ◌+◌, ◌-◌, ◌%◌, Bool, true, false, not, ◌||◌, List, [], ◌∷◌, ◌++◌, get_elem?, length,
  none, some, ◌==◌, u16, if◌then◌else◌,
}
use uwb_apps.Radio.{
  Cmd, mask_tx_time, mac_config, txrf_config, start_rx, set_delay_start, set_rx_timeout,
  nrng_request, nrng_listen, rtdoa_request, rtdoa_listen, nmgr_process_tx, nmgr_listen, led,
  message, set_tof, event_put,
}
use uwb_apps.Tdma.{Slot, in_ccp, listen_timeout, request_timeout}

-- `uwb_config_upd_cb`: with the CCP under way or the clock not valid the new settings are written at
-- once, else they wait for a slot.
unfoldable pub uwb_config_upd_cb : ℕ → Bool → Bool → Bool × List Cmd
uwb_config_upd_cb ccp_sem ccp_valid pending =
    if (ccp_sem == 0) || not ccp_valid
    then (pending, mac_config ∷ txrf_config ∷ (if ccp_sem == 0 then start_rx ∷ [] else []))
    else (true, [])

-- `nrng_slot_timer_cb`: one anchor asks the others, by turns; `slot_mask` is 0xFFFF.
unfoldable pub nrng_slot_timer_cb : Slot → List Cmd
nrng_slot_timer_cb t =
    if in_ccp t || (t.idx == 0xffff)
    then []
    else led true
      ∷ ((if (t.ccp_seq_num % 8) == t.slot_id
            then nrng_request t.broadcast (mask_tx_time (t.tx_slot_start t.idx)) 0xFFFF ∷ []
            else set_delay_start (t.rx_slot_start t.idx)
              ∷ set_rx_timeout (request_timeout t + 0x100)
              ∷ nrng_listen
              ∷ [])
          ++ led false ∷ [])

-- A frame of the ranging service as `nrng_complete_cb` reads it, with `nrng_twr_to_tof_frames` of it.
pub record NrngFrame : Type 0 where
  pub code : ℕ
  pub seq_num : ℕ
  pub dst_address : ℕ
  pub tof : ℕ

-- The loop of `nrng_complete_cb`; `final` is UWB_DATA_CODE_SS_TWR_NRNG_FINAL. The rounds left are
-- the first argument.
tof_loop : ℕ → ℕ → ℕ → ℕ → ℕ → List NrngFrame → List Cmd
tof_loop zero i final seq_num idx frames = []
tof_loop (suc r) i final seq_num idx frames =
    (elim (get_elem? frames ((idx + i) % length frames)) [
      | none ↦ []
      | some f ↦
          if not (f.code == final) || not (f.seq_num == seq_num)
          then []
          else set_tof f.dst_address f.tof ∷ []
    ])
    ++ tof_loop r (suc i) final seq_num idx frames

unfoldable pub nrng_complete_cb : ℕ → ℕ → ℕ → List NrngFrame → List Cmd
unfolding tof_loop
nrng_complete_cb final seq_num idx frames = tof_loop (length frames) 0 final seq_num idx frames

-- `complete_cb`; the argument `range` is FCNTL_IEEE_RANGE_16.
unfoldable pub complete_cb : ℕ → ℕ → Bool × List Cmd
complete_cb range fctrl = if not (fctrl == range) then (false, []) else (true, event_put ∷ [])

-- `rtdoa_slot_timer_cb`; `fails` is the error that the request or the listen reports.
unfoldable pub rtdoa_slot_timer_cb : Slot → Bool → Bool → Bool × List Cmd
rtdoa_slot_timer_cb t fails pending =
    let report = if fails then message ∷ [] else [] in
    let queue = nmgr_process_tx (t.tx_slot_start t.idx) in
    if in_ccp t
    then (pending, [])
    else if pending
    then (false, mac_config ∷ txrf_config ∷ [])
    else if t.nmgr_sends
    then (pending, queue ∷ [])
    else if t.is_ccp_master
    then (pending, queue ∷ rtdoa_request (mask_tx_time (t.tx_slot_start t.idx)) ∷ report)
    else (pending, queue ∷ rtdoa_listen (t.rx_slot_start t.idx) (listen_timeout t) ∷ report)

-- `nmgr_slot_timer_cb`
unfoldable pub nmgr_slot_timer_cb : Slot → List Cmd
nmgr_slot_timer_cb t =
    if in_ccp t
    then []
    else nmgr_process_tx (t.tx_slot_start t.idx)
      ∷ (if t.nmgr_sends
          then []
          else nmgr_listen (t.rx_slot_start t.idx) (u16 (listen_timeout t)) ∷ [])

-- The callbacks that `tdma_allocate_slots` assigns.
pub data Handler : Type 0 where
  pan nrng nmgr rtdoa : Handler

-- The loop of `tdma_allocate_slots` from slot `i`, with the rounds that are left.
unfoldable pub allocate_loop : ℕ → ℕ → List (ℕ × Handler)
allocate_loop zero i = []
allocate_loop (suc r) i =
    let rest = allocate_loop r (suc i) in
    if i == 31 then rest else if (i % 12) == 0 then (i, nmgr) ∷ rest else (i, rtdoa) ∷ rest

-- `tdma_allocate_slots`: the calls of `tdma_assign_slot`, for TDMA_NSLOTS slots.
unfoldable pub tdma_allocate_slots : ℕ → List (ℕ × Handler)
unfolding allocate_loop
tdma_allocate_slots nslots = (1, pan) ∷ (31, nrng) ∷ allocate_loop (nslots - 2) 2
