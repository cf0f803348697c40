-- ===== src/Backhaul/Send/Packing.antt =====
-- What a whole call of `rtdoa_backhaul_send` makes of a packet: the copy that a bridge queues for
-- itself, what goes on the air, and the state that the next round starts from.
use uwb_apps.Prelude.{
  ℕ, ◌+◌, ◌*◌, ◌-◌, ◌^◌, ◌≤◌, ◌<◌, ◌≡◌, refl, ap, sym, ◌∙◌, Bool, true, false, List, [], ◌∷◌, ◌++◌,
  length, replicate, not, ◌&&◌, some, u8, ◌==◌, if◌then◌else◌, arith, Bool-cases, inl, inr,
}
use uwb_apps.Radio.{Cmd, set_delay_start, write_tx_fctrl, write_tx, start_tx, message}
use uwb_apps.Float.{FloatOps}
use uwb_apps.Backhaul.Packet.{
  Params, ResultsPkg, Head, dwt_rtdoabh_code, zero_sensors, zero_range, split_at, sizeof_pkg,
  sizeof_range_data,
}
use uwb_apps.Backhaul.State.{Backhaul, Stats, Mbuf, MbufCalls, dlen_field, bridge, local_send}
use uwb_apps.Backhaul.Send.{
  SendEnv, range_loop, packet_len, begin_packet, tx_buffer, clear_packet, air_calls, count_tx, send,
}
use uwb_apps.Backhaul.Send.Ranges.{
  counted, report, length-report-le, range_loop_lem, range_loop_frame,
}

-- The state in which a send finds the library: the packet has its slots, no more than a byte can
-- count and no more than a chain can hold, and every frame can have one.
pub record IsReady (k : Params) (e : SendEnv) (b : Backhaul) : Type 0 where
  pub slots : length b.pkg.ranges ≡ k.max_ranges
  pub few : k.max_ranges ≤ 255
  pub fits : sizeof_pkg k < 2 ^ 15
  pub room : length e.frames ≤ k.max_ranges

local_send-pkg :
    (k : Params) (m : MbufCalls) (p : ResultsPkg) (dlen : ℕ) (b : Backhaul)
    → (local_send k m p dlen b).0.pkg ≡ b.pkg
unfolding local_send
local_send-pkg k m p dlen b = ground arith

-- `n` frames of the packet, and no unused slot.
packet_len_lem :
    (k : Params) (n : ℕ)
    → n ≤ k.max_ranges
    → packet_len k n ≡ split_at k + 1 + sizeof_range_data * n
unfolding packet_len
packet_len_lem k n h = omega arith

-- The packet that the loop leaves.
record Filled (ops : FloatOps) (k : Params) (e : SendEnv) (p q : ResultsPkg) : Type 0 where
  content : counted q ≡ report ops e.frames
  number : q.num_ranges ≡ length (report ops e.frames)
  slots : length q.ranges ≡ k.max_ranges
  head : q.head ≡ p.head
  sensors : q.sensors ≡ p.sensors
  reference : q.ref_anchor_addr ≡ p.ref_anchor_addr

range_loop-Filled :
    (ops : FloatOps) (k : Params) (e : SendEnv) (p : ResultsPkg) (s : Stats)
    → p.num_ranges ≡ 0
    → length p.ranges ≡ k.max_ranges
    → k.max_ranges ≤ 255
    → length e.frames ≤ k.max_ranges
    → Filled ops k e p (range_loop ops 0 e.frames (p, s)).0
range_loop-Filled ops k e p s zero' slots few room =
    let (content, number, size) = range_loop_lem ops e.frames 0 p s (omega arith) (omega arith) in
    let (head, sensors, reference) = range_loop_frame ops e.frames 0 p s in
    record {
      content = ground arith;
      number = omega arith;
      slots = size ∙ slots;
      head = head;
      sensors = sensors;
      reference = reference;
    }

module _ (ops : FloatOps) (k : Params) (e : SendEnv) (dx_time : ℕ) (b : Backhaul) where
  abbrev named : ResultsPkg
  named = let p = begin_packet b.pkg in record p { ref_anchor_addr = e.req_src_address }

  abbrev filled : ResultsPkg
  filled = (range_loop ops 0 e.frames (named, b.stats)).0

  abbrev failed : Bool
  failed = not (dx_time == 0) && e.start_tx_error

  filled-Filled : IsReady k e b → Filled ops k e named filled
  unfolding begin_packet
  filled-Filled r = range_loop-Filled ops k e named b.stats refl r.slots r.few r.room

  -- A send that finds the library ready queues one packet at a bridge, unless it had to transmit and
  -- could not, or the kernel refuses the buffer: the packet counts exactly the reported frames, in order, holds their
  -- reference anchor and the sensor readings, has the next sequence number, and is as long as its
  -- entries need.
  pub bridge_copy :
      IsReady k e b
      → b.role ≡ bridge
      → failed ≡ false
      → e.mbuf.alloc ≡ true
      → e.mbuf.copy_rc ≡ 0
      → e.mbuf.put_rc ≡ 0
      → (m : Mbuf) × ((send ops k e dx_time b).0.queue ≡ b.queue ++ m ∷ [])
        × (counted m.body ≡ report ops e.frames)
        × (m.body.num_ranges ≡ length (report ops e.frames))
        × (m.dlen ≡ split_at k + 1 + sizeof_range_data * length (report ops e.frames))
        × (m.body.ref_anchor_addr ≡ e.req_src_address)
        × (m.body.sensors ≡ b.pkg.sensors)
        × (m.body.head.seq_num ≡ u8 (b.pkg.head.seq_num + 1))
  unfolding send local_send begin_packet
  bridge_copy r role ok alloc copy_rc put_rc =
      let f = filled-Filled r in
      let few = length-report-le ops e.frames in
      (
        record { dlen = dlen_field (packet_len k filled.num_ranges); body = filled },
        ground arith,
        f.content,
        f.number,
        omega (arith, packet_len_lem k filled.num_ranges (omega arith)),
        f.reference,
        f.sensors,
        ap (λ h. h.seq_num) f.head,
      )

  -- What goes on the air, where a send with a start time finds the library ready. The transmit buffer holds the reported frames and the sensor readings,
  -- and its length is announced to the radio, but the reference anchor in it is that of the packet
  -- before: it is set after its bytes were written to the radio.
  pub air_copy :
      IsReady k e b
      → 0 < dx_time
      → (p : ResultsPkg) × ((send ops k e dx_time b).2 ≡ some p)
        × (counted p ≡ report ops e.frames)
        × (p.num_ranges ≡ length (report ops e.frames))
        × (p.sensors ≡ b.pkg.sensors)
        × (p.ref_anchor_addr ≡ b.pkg.ref_anchor_addr)
        × (let n = split_at k + 1 + sizeof_range_data * length (report ops e.frames) in
            (rest : List Cmd) × ((send ops k e dx_time b).1
              ≡ write_tx 0 (split_at k + 1)
                ∷ set_delay_start dx_time
                ∷ write_tx_fctrl n
                ∷ write_tx (split_at k) (n - split_at k)
                ∷ start_tx
                ∷ rest))
  unfolding send begin_packet tx_buffer air_calls
  air_copy r on =
      let f = filled-Filled r in
      let few = length-report-le ops e.frames in
      (
        tx_buffer (begin_packet b.pkg) filled,
        ground arith,
        f.content,
        f.number,
        refl,
        refl,
        (
          (if failed then message ∷ [] else []),
          ground (arith, packet_len_lem k filled.num_ranges (omega arith)),
        ),
      )

  -- Whatever becomes of a send that finds the library ready, the next one finds the sensors and the slots cleared, and the
  -- sequence number and the reference anchor of this one.
  pub next_round :
      IsReady k e b
      → let p = (send ops k e dx_time b).0.pkg in
        (p.sensors ≡ zero_sensors)
        × (p.ranges ≡ replicate k.max_ranges zero_range)
        × (p.head.seq_num ≡ u8 (b.pkg.head.seq_num + 1))
        × (p.ref_anchor_addr ≡ e.req_src_address)
  unfolding send clear_packet begin_packet
  next_round r =
      let f = filled-Filled r in
      let dlen = packet_len k filled.num_ranges in
      let s = (range_loop ops 0 e.frames (named, b.stats)).1 in
      let kept =
        local_send-pkg k e.mbuf filled dlen
          (record b { pkg = filled; stats = count_tx k dx_time dlen failed s }) in
      (
        refl,
        refl,
        ground (arith, kept, ap (λ h. h.seq_num) f.head),
        ground (arith, kept, f.reference),
      )

  -- The header of a packet, as a send makes it from that of the packet before.
  abbrev pub next_head : Head
  next_head =
      let h = b.pkg.head in record h { seq_num = u8 (h.seq_num + 1); code = dwt_rtdoabh_code }

  pub air_head : (p : ResultsPkg) → (send ops k e dx_time b).2 ≡ some p → p.head ≡ next_head
  unfolding send begin_packet tx_buffer
  air_head p h = elim (Bool-cases (dx_time == 0)) [
    | inl off ↦ ground arith
    | inr on ↦
        let same : some (tx_buffer (begin_packet b.pkg) filled) ≡ some p = rw on at h in
        let one : tx_buffer (begin_packet b.pkg) filled ≡ p = cc in ap (λ q. q.head) (sym one)
  ]

  pub send-head : IsReady k e b → (send ops k e dx_time b).0.pkg.head ≡ next_head
  unfolding send clear_packet begin_packet
  send-head r =
      let f = filled-Filled r in
      let dlen = packet_len k filled.num_ranges in
      let s = (range_loop ops 0 e.frames (named, b.stats)).1 in
      let kept =
        local_send-pkg k e.mbuf filled dlen
          (record b { pkg = filled; stats = count_tx k dx_time dlen failed s }) in
      ground (arith, kept, f.head)
