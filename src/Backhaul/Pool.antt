-- ===== src/Backhaul/Pool.antt =====
-- The message buffers of lib/rtdoa_backhaul: chains taken from the pool against chains queued.
use uwb_apps.Prelude.{
  ℕ, ◌+◌, ◌-◌, ◌≡◌, refl, ◌∙◌, Bool, not, ◌&&◌, ◌||◌, List, [], ◌∷◌, length, length-append, leb,
  ◌==◌, if◌then◌else◌, arith,
}
use uwb_apps.Float.{FloatOps}
use uwb_apps.Backhaul.Packet.{
  Params, ResultsPkg, fcntl_ieee_rtdoabh, dwt_rtdoabh_code, sizeof_sensor_data,
}
use uwb_apps.Backhaul.State.{
  Backhaul, Mbuf, MbufCalls, dlen_field, local_send, process_one, process_all,
  process_rx_data_queue,
}
use uwb_apps.Backhaul.Send.{SendEnv, send, send_imu_only}
use uwb_apps.Backhaul.Receive.{RxEnv, is_foreign, is_repeat, accept, rx_complete_cb}

-- Every chain that was taken from the pool is in the queue.
abbrev pub IsBalanced : Backhaul → Type 0
IsBalanced b = b.held ≡ length b.queue

-- `rtdoa_local_send` keeps the account on every branch: it frees what it cannot queue.
pub local_send-IsBalanced :
    (k : Params) (m : MbufCalls) (p : ResultsPkg) (dlen : ℕ) (b : Backhaul)
    → IsBalanced b
    → IsBalanced (local_send k m p dlen b).0
unfolding local_send
local_send-IsBalanced k m p dlen b h = grind (arith, length-append)

-- One turn of the loop gives back the chain that it took.
process_one-held :
    (k : Params) (copies : Mbuf → Bool) (m : Mbuf) (b : Backhaul)
    → ((process_one k copies m b).0.held ≡ b.held - 1)
      × ((process_one k copies m b).0.queue ≡ b.queue)
unfolding process_one
process_one-held k copies m b = ground arith

process_all-held :
    (k : Params) (copies : Mbuf → Bool) (ms : List Mbuf) (b : Backhaul)
    → ((process_all k copies ms b).0.held ≡ b.held - length ms)
      × ((process_all k copies ms b).0.queue ≡ b.queue)
unfolding process_all
process_all-held k copies [] b = (omega arith, refl)
process_all-held k copies (m ∷ ms) b =
    let one = process_one-held k copies m b in
    let (held, queue) = process_all-held k copies ms (process_one k copies m b).0 in
    (omega (arith, one.0), queue ∙ one.1)

-- Where every chain that was taken is in the queue, `process_rx_data_queue` empties the queue and
-- gives every chain back, whatever the copies return.
process_rx_data_queue-drains :
    (k : Params) (copies : Mbuf → Bool) (b : Backhaul)
    → IsBalanced b
    → let b' = (process_rx_data_queue k copies b).0 in (b'.queue ≡ []) × (b'.held ≡ 0)
unfolding process_rx_data_queue
process_rx_data_queue-drains k copies b h =
    let (held, queue) = process_all-held k copies b.queue (record b { queue = [] }) in
    (queue, omega arith)

-- `rtdoa_backhaul_send_imu_only` keeps the account: where every chain that was taken is in the queue
-- before it, every one is after it, whatever the kernel answers.
pub send_imu_only-IsBalanced :
    (k : Params) (m : MbufCalls) (ts : ℕ) (b : Backhaul)
    → IsBalanced b
    → IsBalanced (send_imu_only k m ts b)
unfolding send_imu_only
send_imu_only-IsBalanced k m ts b h = local_send-IsBalanced k m _ _ _ h

-- `rtdoa_backhaul_send` keeps the account: where every chain that was taken is in the queue before it,
-- every one is after it, transmission errors and refused buffers included.
pub send-IsBalanced :
    (ops : FloatOps) (k : Params) (e : SendEnv) (dx_time : ℕ) (b : Backhaul)
    → IsBalanced b
    → IsBalanced (send ops k e dx_time b).0
unfolding send
send-IsBalanced ops k e dx_time b h = grind (arith, local_send-IsBalanced)

-- The callback takes the frame as a new packet.
abbrev pub is_accepted : Params → RxEnv → Backhaul → Bool
is_accepted k e b =
    (e.fctrl == fcntl_ieee_rtdoabh)
    && leb dwt_rtdoabh_code e.rxbuf.head.code
    && not (is_foreign k e b.role)
    && leb sizeof_sensor_data e.frame_len
    && not (is_repeat e b)

-- The chains that one call of `rx_complete_cb` loses: one, where it had a chain and could not fill
-- or queue it.
abbrev pub lost_chains : Params → RxEnv → Backhaul → ℕ
lost_chains k e b =
    if is_accepted k e b && e.mbuf.alloc && (not (e.mbuf.copy_rc == 0) || not (e.mbuf.put_rc == 0))
    then 1
    else 0

accept-held :
    (e : RxEnv) (b : Backhaul)
    → (accept e b).held + length b.queue
      ≡ b.held
        + length (accept e b).queue
        + (if e.mbuf.alloc && (not (e.mbuf.copy_rc == 0) || not (e.mbuf.put_rc == 0)) then 1 else 0)
unfolding accept
accept-held e b =
    ground
      (arith, length-append b.queue (record { dlen = dlen_field e.frame_len; body = e.rxbuf } ∷ []))

-- `rx_complete_cb` on every branch: the chains taken from the pool and those in the queue grow alike,
-- but for one chain that it loses where it accepts a frame, has a chain, and the copy or the put fails.
pub rx_complete_cb-held :
    (k : Params) (e : RxEnv) (b : Backhaul)
    → let b' = (rx_complete_cb k e b).0 in
      b'.held + length b.queue ≡ b.held + length b'.queue + lost_chains k e b
unfolding rx_complete_cb
rx_complete_cb-held k e b = ground (arith, accept-held e b)
