-- ===== src/Tdma.antt =====
-- What every TDMA slot callback of apps/ reads: the slot and the TDMA and CCP instances behind it.
-- These instances belong to decawave-uwb-core.
use uwb_apps.Prelude.{
  ℕ, zero, suc, ◌+◌, ◌*◌, ◌-◌, ◌%◌, ◌/◌, ◌^◌, Bool, u16, u32, ◌==◌, if◌then◌else◌,
}

pub record Slot : Type 0 where
  -- `slot->idx`, `tdma->nslots`
  pub idx : ℕ
  pub nslots : ℕ
  -- `dpl_sem_get_count(&ccp->sem)`: 0 while the clock calibration packet is sent or awaited
  pub ccp_sem : ℕ
  pub ccp_period : ℕ
  pub ccp_local_epoch : ℕ
  pub ccp_seq_num : ℕ
  -- `inst->slot_id` and the bits of `inst->role`
  pub slot_id : ℕ
  pub is_anchor : Bool
  pub is_ccp_master : Bool
  -- `tdma_rx_slot_start(tdma, idx)`, `tdma_tx_slot_start(tdma, idx)`
  pub rx_slot_start : ℕ → ℕ
  pub tx_slot_start : ℕ → ℕ
  -- `uwb_phy_frame_duration` of a ranging request, and `rx_timeout_delay` of the ranging service
  pub frame_duration : ℕ
  pub rx_timeout_delay : ℕ
  -- what `uwb_nmgr_process_tx_queue` returns
  pub nmgr_sends : Bool
  -- the value of UWB_BROADCAST_ADDRESS
  pub broadcast : ℕ

-- The clock calibration packet has the radio.
abbrev pub in_ccp : Slot → Bool
in_ccp t = t.ccp_sem == 0

-- `3*ccp->period/tdma->nslots/4`, over `uint32_t`
abbrev pub listen_timeout : Slot → ℕ
listen_timeout t = u32 (3 * t.ccp_period) / t.nslots / 4

-- `timeout`, a `uint16_t`, of a listen for a ranging request
abbrev pub request_timeout : Slot → ℕ
request_timeout t = u16 (t.frame_duration + t.rx_timeout_delay)

-- `slot_mask |= 1UL << i`
abbrev pub or_bit : ℕ → ℕ → ℕ
or_bit i m = if (m / 2 ^ i % 2) == 1 then m else m + 2 ^ i

-- `for (uint16_t i = start; i <= end; i++)`, with the rounds that are left
unfoldable pub mask_loop : ℕ → ℕ → ℕ → ℕ
mask_loop zero i m = m
mask_loop (suc r) i m = mask_loop r (suc i) (or_bit i m)

-- The mask of the nodes that shall answer a ranging request.
unfoldable pub slot_mask : ℕ → ℕ → ℕ
unfolding mask_loop
slot_mask start end = mask_loop (end + 1 - start) start 0
