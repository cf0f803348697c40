-- ===== src/Streaming.antt =====
-- apps/streaming/src/main.c: a stream of numbered packets over the transport service, sent by a
-- timer and checked by the receiver.
pub mod Loss
pub mod Transport
pub mod Plan
use uwb_apps.Prelude.{
  ℕ, zero, suc, ◌+◌, ◌-◌, ◌*◌, ◌/◌, ◌%◌, ◌^◌, Bool, true, false, not, ◌&&◌, ◌||◌, List, [], ◌∷◌,
  ◌++◌, length, u8, u32, sub_u8, sub_u64, ◌==◌, if◌then◌else◌,
}
use uwb_apps.Radio.{
  Cmd, mask_tx_time, forcetrxoff, mac_config, txrf_config, start_rx, set_delay_start,
  set_rx_timeout, nrng_request, nrng_listen, transport_dequeue, transport_listen, message,
  callout_reset,
}
use uwb_apps.Tdma.{Slot, in_ccp, request_timeout, slot_mask}

-- `uwb_config_updated_func`
unfoldable pub uwb_config_updated_func : ℕ → Bool → Bool × List Cmd
uwb_config_updated_func ccp_sem pending =
    if ccp_sem == 0
    then (pending, forcetrxoff ∷ mac_config ∷ txrf_config ∷ start_rx ∷ [])
    else (true, [])

-- `range_slot_cb`; the arguments are NRNG_NTAGS, NODE_START_SLOT_ID and NODE_END_SLOT_ID, and the
-- error that the request reports.
unfoldable pub range_slot_cb : ℕ → ℕ → ℕ → Slot → Bool → List Cmd
range_slot_cb ntags node_start node_end t fails =
    if in_ccp t
    then []
    else if (t.ccp_local_epoch == 0) || (t.slot_id == 0xffff)
    then []
    else if t.is_anchor
    then set_delay_start (t.rx_slot_start t.idx)
      ∷ set_rx_timeout (request_timeout t + 0x1000)
      ∷ nrng_listen
      ∷ []
    else if not ((t.idx % ntags) == t.slot_id)
    then []
    else nrng_request t.broadcast (mask_tx_time (t.tx_slot_start t.idx))
        (slot_mask node_start node_end)
      ∷ (if fails then message ∷ [] else [])

-- The end of a slot for the transport: the start of the next one, less the preamble and the latency,
-- over 40 bits.
abbrev pub slot_end : ℕ → ℕ → ℕ → ℕ
slot_end start preamble latency = sub_u64 start ((preamble + latency) * 2 ^ 16 % 2 ^ 64) % 2 ^ 40

-- `stream_slot_cb`. `preamble` is the duration of the preamble in device microseconds, `latency` is
-- OS_LATENCY, `sends` what `uwb_transport_dequeue_tx` returns.
unfoldable pub stream_slot_cb : ℕ → ℕ → Slot → Bool → Bool → Bool × List Cmd
stream_slot_cb preamble latency t sends pending =
    let tx = t.tx_slot_start in
    let rx = t.rx_slot_start in
    if in_ccp t
    then (pending, [])
    else if pending
    then (false, mac_config ∷ txrf_config ∷ [])
    else (
      pending,
      transport_dequeue (tx t.idx) (slot_end (tx (t.idx + 1)) preamble latency)
          ∷ (if not sends
              then transport_listen (rx t.idx) (slot_end (rx (t.idx + 1)) preamble latency) ∷ []
              else []),
    )

-- The two first bytes of a packet, the checksum and the index, and the bytes behind them.
pub record Packet : Type 0 where
  pub crc : ℕ
  pub index : ℕ
  pub rest : List ℕ

-- The counters of the receiver: `g_idx`, `g_missed_count`, `g_ok_count`.
pub record Receiver : Type 0 where
  pub idx : ℕ
  pub missed : ℕ
  pub ok : ℕ

-- `uwb_transport_cb` for a packet that is read into `test`. `calc` is `crc8_calc` from 0 over all
-- bytes but the first, `len` the length of the chain, `size` that of `test`.
pub transport_cb : (List ℕ → ℕ) → ℕ → ℕ → Packet → Receiver → Receiver × List Cmd
transport_cb calc size len p r =
    let expected = u8 (r.idx + 1) in
    let gap = sub_u8 p.index expected in
    if not (p.crc == calc (p.index ∷ p.rest)) || not (len == size)
    then (record r { idx = p.index }, message ∷ [])
    else if not (p.index == expected)
    then (
      record { idx = p.index; missed = u32 (r.missed + gap); ok = u32 (r.ok + 1) },
      message ∷ [],
    )
    else (record r { idx = p.index; ok = u32 (r.ok + 1) }, [])

-- The loop of `stream_timer` with the rounds that are left: `buffers` says how many chains the kernel
-- still has. The packets are those given to `uwb_transport_enqueue_tx`, in order.
unfoldable pub stream_loop : (List ℕ → ℕ) → ℕ → ℕ → ℕ → Packet → Packet × List Packet
stream_loop calc destination zero buffers p = (p, [])
stream_loop calc destination (suc r) zero p = (p, [])
stream_loop calc destination (suc r) (suc buffers) p =
    let index = u8 (p.index + 1) in
    let q = record p { index = index; crc = calc (index ∷ p.rest) } in
    let rest = stream_loop calc destination r buffers q in
    if destination == 0 then (p, []) else (rest.0, q ∷ rest.1)

-- `stream_timer`: at most 18 packets, every 1/80 second.
unfoldable pub stream_timer : (List ℕ → ℕ) → ℕ → ℕ → ℕ → Packet → Packet × List Packet × List Cmd
stream_timer calc ticks_per_sec destination buffers p =
    let (p', sent) = stream_loop calc destination 18 buffers p in
    (p', sent, callout_reset (ticks_per_sec / 80) ∷ [])

-- The callbacks that `main` assigns to slots, where CONCURRENT_NRNG is set or not.
pub data Handler : Type 0 where
  range stream : Handler

unfoldable pub assign_loop : Bool → ℕ → ℕ → List (ℕ × Handler)
assign_loop concurrent zero i = []
assign_loop concurrent (suc r) i =
    (i, if concurrent then (if (i % 16) == 0 then stream else range) else stream)
    ∷ assign_loop concurrent r (suc i)

pub assign_slots : Bool → ℕ → List (ℕ × Handler)
unfolding assign_loop
assign_slots concurrent nslots = assign_loop concurrent (nslots - 1 - 1) 1
