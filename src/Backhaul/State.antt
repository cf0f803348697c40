-- ===== src/Backhaul/State.antt =====
-- The state of lib/rtdoa_backhaul/src/rtdoa_backhaul.c: its globals and the statics of its
-- callbacks, its statistics, and the operations on its queue of received packets. The message
-- buffers belong to the kernel: whether a buffer is had, and what a copy or a put returns, comes from
-- outside, and `held` counts the chains that were taken from the pool and not given back.
use Prim.Native.Nat.{min}
use uwb_apps.Prelude.{
  ℕ, suc, ◌+◌, ◌-◌, ◌%◌, ◌^◌, Bool, true, false, List, [], ◌∷◌, ◌++◌, u32, ltb, ◌==◌, if◌then◌else◌,
}
use uwb_apps.Backhaul.Copied.{copied}
use uwb_apps.Backhaul.Packet.{Params, ResultsPkg, SensorData, initial_pkg, sizeof_pkg}

-- `rtdoa_backhaul_role_t`
pub data Role : Type 0 where
  invalid bridge producer : Role

abbrev pub is_bridge : Role → Bool
is_bridge bridge = true
is_bridge _ = false

-- The counters of `tag_stats`; `anchors` holds a00 to a03 as pairs of range and rssi.
pub record Stats : Type 0 where
  pub num_ranges : ℕ
  pub tx_ok : ℕ
  pub tx_err : ℕ
  pub rx_ok : ℕ
  pub rx_drop : ℕ
  pub rx_error : ℕ
  pub anchors : List (ℕ × ℕ)

-- A queued chain: the `dlen` bit-field of its header, and the struct whose first `dlen` bytes were
-- copied into it.
pub record Mbuf : Type 0 where
  pub dlen : ℕ
  pub body : ResultsPkg

pub record Backhaul : Type 0 where
  pub sem : ℕ
  pub msg_id : ℕ
  pub role : Role
  pub to_dx_time : ℕ
  pub pkg : ResultsPkg
  pub pkg_imu : ResultsPkg
  pub last_address : ℕ
  pub last_seq_num : ℕ
  pub queue : List Mbuf
  pub held : ℕ
  pub stats : Stats

-- What the kernel answers to one attempt to queue a packet: whether a buffer is free, and the
-- return codes of `os_mbuf_copyinto` and `os_mqueue_put` (0 is success).
pub record MbufCalls : Type 0 where
  pub alloc : Bool
  pub copy_rc : ℕ
  pub put_rc : ℕ

-- `uint16_t dlen:15`
abbrev pub dlen_field : ℕ → ℕ
dlen_field n = n % 2 ^ 15

abbrev pub take_mbuf : Backhaul → Backhaul
take_mbuf b = record b { held = suc b.held }

abbrev pub free_chain : Backhaul → Backhaul
free_chain b = record b { held = b.held - 1 }

abbrev pub put : Backhaul → ℕ → ResultsPkg → Backhaul
put b len p = record b { queue = b.queue ++ record { dlen = len; body = p } ∷ [] }

-- `rtdoa_local_send`: the packet goes to the queue of this device itself.
unfoldable pub local_send : Params → MbufCalls → ResultsPkg → ℕ → Backhaul → Backhaul × ℕ
local_send k m p dlen b =
    if m.alloc
    then (let len = dlen_field dlen in
        let t = take_mbuf b in
        if m.copy_rc == 0
        then (if m.put_rc == 0 then (put t len p, 0) else (free_chain t, m.put_rc))
        else (free_chain t, m.copy_rc))
    else (b, k.enomem)

-- What `process_rx_data_queue` hands to `rtdoa_backhaul_print`: the message number that it prints,
-- and the first `payload_len` bytes of the struct, the rest cleared.
pub record Printed : Type 0 where
  pub mid : ℕ
  pub payload_len : ℕ
  pub body : ResultsPkg

-- What is printed of a queued chain: as many of its bytes as the struct has, the rest cleared.
abbrev pub shown : Params → Mbuf → ResultsPkg
shown k m = copied k (min m.dlen (sizeof_pkg k)) m.body

-- One turn of the loop of `process_rx_data_queue`. `copies` is whether `os_mbuf_copydata` succeeds.
unfoldable pub process_one : Params → (Mbuf → Bool) → Mbuf → Backhaul → Backhaul × List Printed
process_one k copies m b =
    let len = if ltb (sizeof_pkg k) m.dlen then sizeof_pkg k else m.dlen in
    if is_bridge b.role
    then (if copies m
        then (
          free_chain (record b { msg_id = u32 (b.msg_id + 1) }),
          record { mid = b.msg_id; payload_len = len; body = copied k len m.body } ∷ [],
        )
        else (free_chain b, []))
    else (free_chain b, [])

unfoldable pub process_all : Params → (Mbuf → Bool) → List Mbuf → Backhaul → Backhaul × List Printed
process_all k copies [] b = (b, [])
process_all k copies (m ∷ ms) b =
    let (b', out) = process_one k copies m b in
    let (b'', rest) = process_all k copies ms b' in (b'', out ++ rest)

-- `process_rx_data_queue`: takes every chain off the queue, prints it at a bridge, and frees it.
unfoldable pub process_rx_data_queue : Params → (Mbuf → Bool) → Backhaul → Backhaul × List Printed
unfolding process_all
process_rx_data_queue k copies b = process_all k copies b.queue (record b { queue = [] })

-- `if (os_sem_get_count(&g_sem) == 0) os_sem_release(&g_sem);`
abbrev pub release_if_taken : Backhaul → Backhaul
release_if_taken b = if b.sem == 0 then record b { sem = suc b.sem } else b

-- `rtdoa_backhaul_set_role`, `rtdoa_backhaul_set_a2a`, `rtdoa_backhaul_set_ts`
unfoldable pub set_role : Role → Backhaul → Backhaul
set_role r b = record b { role = r }

pub set_a2a : Backhaul → Backhaul
set_a2a b = record b { pkg = record p { sensors = record s { is_anchor_data = true } } }
  where
    open b use {pkg as p}

    s : SensorData
    s = p.sensors

unfoldable pub set_ts : ℕ → Backhaul → Backhaul
set_ts time b = record b { pkg = record p { sensors = record s { ts = time } } }
  where
    open b use {pkg as p}

    s : SensorData
    s = p.sensors

-- The globals after `rtdoa_backhaul_init` and `rtdoa_backhaul_pkg_init` on a device.
unfoldable pub init : Params → ℕ → Backhaul
unfolding initial_pkg
init k my_short_address = record {
  sem = 1;
  msg_id = 0;
  role = invalid;
  to_dx_time = 0;
  pkg = addressed;
  pkg_imu = addressed;
  last_address = 0;
  last_seq_num = 0;
  queue = [];
  held = 0;
  stats = record {
    num_ranges = 0;
    tx_ok = 0;
    tx_err = 0;
    rx_ok = 0;
    rx_drop = 0;
    rx_error = 0;
    anchors = (0, 0) ∷ (0, 0) ∷ (0, 0) ∷ (0, 0) ∷ [];
  };
}
  where
    addressed : ResultsPkg
    addressed =
        let p = initial_pkg k in
        record p { head = record (p.head) { src_address = my_short_address } }
