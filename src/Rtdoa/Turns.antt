-- ===== src/Rtdoa/Turns.antt =====
-- Whose turn it is in the ranging slot of apps/rtdoa_node, and when the transmission starts.
use uwb_apps.Prelude.{ℕ, ◌+◌, ◌%◌, ◌^◌, ◌≤◌, ◌<◌, ◌≡◌, true, any, arith}
use uwb_apps.Radio.{is_request, mask_tx_time}
use uwb_apps.Tdma.{Slot}
use uwb_apps.Rtdoa.Node.{nrng_slot_timer_cb}

-- Two anchors that ask in the same period have the same slot number.
one_asks :
    (t u : Slot)
    → t.ccp_seq_num ≡ u.ccp_seq_num
    → any is_request (nrng_slot_timer_cb t) ≡ true
    → any is_request (nrng_slot_timer_cb u) ≡ true
    → t.slot_id ≡ u.slot_id
unfolding nrng_slot_timer_cb is_request
one_asks t u same a b = ground arith

-- The start of a delayed transmission is a multiple of 512 device time units, the resolution of the
-- radio, and less than that before the start of the slot.
mask_tx_time_bounds :
    (t : ℕ)
    → t < 2 ^ 48
    → (mask_tx_time t % 512 ≡ 0) × (mask_tx_time t ≤ t) × (t < mask_tx_time t + 512)
unfolding mask_tx_time
mask_tx_time_bounds t h = omega arith
