-- ===== src/Backhaul/Delivery.antt =====
-- From a tag to the console of a bridge: what lib/rtdoa_backhaul prints of the reports that another
-- device sends.
pub mod Text
use Prim.Native.Nat.{min}
use uwb_apps.Prelude.{
  ℕ, ◌+◌, ◌^◌, ◌≤◌, ◌<◌, ◌≡◌, refl, ap, ◌∙◌, Bool, true, false, not, ◌&&◌, List, [], ◌∷◌, ◌++◌,
  length, length-replicate, all, map, Option, some, none, u8, u32, ltb, leb, ◌==◌, arith,
}
use uwb_apps.Float.{FloatOps}
use uwb_apps.Backhaul.Packet.{
  Params, ResultsPkg, SensorData, RangeData, fcntl_ieee_rtdoabh, dwt_rtdoabh_code,
  sizeof_sensor_data, sizeof_pkg,
}
use uwb_apps.Radio.{Cmd, write_tx_fctrl}
use uwb_apps.Backhaul.Copied.{is_whole}
use uwb_apps.Backhaul.Copied.Whole.{View, view, view-copied}
use uwb_apps.Backhaul.State.{Backhaul, Mbuf, Printed, bridge, shown, dlen_field}
use uwb_apps.Backhaul.Send.{SendEnv, send}
use uwb_apps.Backhaul.Send.Ranges.{counted, report, length-report-le}
use uwb_apps.Backhaul.Send.Packing.{IsReady, air_copy, next_round, air_head, send-head, next_head}
use uwb_apps.Backhaul.Receive.{RxEnv}
use uwb_apps.Backhaul.Fifo.{
  Event, frame, console, run, reported, numbered, queued, is_wanted, is_served, run-reported,
}

-- A report of a tag: the readings that its sensors have stored, and the send.
pub record Round : Type 0 where
  pub sensors : SensorData
  pub env : SendEnv
  pub dx_time : ℕ

-- What a line of the console tells: its number, the ranges and their reference anchor, the readings.
pub record Content : Type 0 where
  pub mid : ℕ
  pub ranges : List RangeData
  pub ref_anchor_addr : ℕ
  pub sensors : SensorData

abbrev pub content : Printed → Content
content p = record {
  mid = p.mid;
  ranges = counted p.body;
  ref_anchor_addr = p.body.ref_anchor_addr;
  sensors = p.body.sensors;
}

abbrev pub with_sensors : SensorData → Backhaul → Backhaul
with_sensors d b = let p = b.pkg in record b { pkg = record p { sensors = d } }

-- A packet on the air, and its length as it was announced to the radio.
pub record AirPacket : Type 0 where
  pub packet : ResultsPkg
  pub announced : ℕ

-- The length that a trace announces.
abbrev pub announced_in : List Cmd → ℕ
announced_in [] = 0
announced_in (write_tx_fctrl n ∷ calls) = n
announced_in (_ ∷ calls) = announced_in calls

abbrev pub air_packets : List Cmd → Option ResultsPkg → List AirPacket
air_packets calls none = []
air_packets calls (some p) = record { packet = p; announced = announced_in calls } ∷ []

module _ (ops : FloatOps) (k : Params) where
  -- The packets that a tag puts on the air.
  unfoldable pub sends : List Round → Backhaul → List AirPacket
  sends [] b = []
  sends (r ∷ rs) b =
      let (b', calls, air) = send ops k r.env r.dx_time (with_sensors r.sensors b) in
      air_packets calls air ++ sends rs b'

  -- What they should make the bridge print, from the number `mid`; `ref` is the reference anchor of the
  -- round before.
  unfoldable pub expected : (mid ref : ℕ) → List Round → List Content
  expected mid ref [] = []
  expected mid ref (r ∷ rs) =
      record {
        mid = mid;
        ranges = report ops r.env.frames;
        ref_anchor_addr = ref;
        sensors = r.sensors;
      }
      ∷ expected (u32 (mid + 1)) r.env.req_src_address rs

-- The send goes out, and every frame can have a slot.
abbrev pub is_sent : Params → Round → Bool
is_sent k r = ltb 0 r.dx_time && not r.env.start_tx_error && leb (length r.env.frames) k.max_ranges

-- The radio delivers a packet to a bridge that has room for it: at least the length that was announced,
-- and no more than the length of a chain can say.
pub record IsDelivered (k : Params) (x : RxEnv) (a : AirPacket) : Type 0 where
  pub body : x.rxbuf ≡ a.packet
  pub full : a.announced ≤ x.frame_len
  pub counted_in : x.frame_len < 2 ^ 15
  pub kind : x.fctrl ≡ fcntl_ieee_rtdoabh
  pub long : sizeof_sensor_data ≤ x.frame_len
  pub served : is_served k (λ _. true) x ≡ true

-- The frames of a run at the bridge are these packets, each once and in order; its queue handler runs
-- at any time.
pub data Carries (k : Params) : List Event → List AirPacket → Type 0 where
  silence : Carries k [] []
  handled : {es : List Event} {ps : List AirPacket} → Carries k es ps → Carries k (console ∷ es) ps
  delivered :
      {es : List Event} {ps : List AirPacket} {x : RxEnv} {p : AirPacket}
      → IsDelivered k x p
      → Carries k es ps
      → Carries k (frame x ∷ es) (p ∷ ps)

-- Packets for everybody, none like the one before, each announced up to its last entry.
abbrev pub is_fresh : Params → (address seq_num : ℕ) → List AirPacket → Bool
is_fresh k address seq_num [] = true
is_fresh k address seq_num (p ∷ ps) =
    let h = p.packet.head in
    is_whole k (min p.announced (sizeof_pkg k)) p.packet
    && (h.code == dwt_rtdoabh_code)
    && (h.dst_address == k.broadcast)
    && not ((h.src_address == address) && (h.seq_num == seq_num))
    && is_fresh k h.src_address h.seq_num ps

-- What is shown of a packet that was delivered.
shown_lem :
    (k : Params) (x : RxEnv) (p : AirPacket)
    → IsDelivered k x p
    → is_whole k (min p.announced (sizeof_pkg k)) p.packet ≡ true
    → view (shown k (queued k (λ _. true) x)) ≡ view p.packet
shown_lem k x p d h = rw d.body (
    view-copied k (min (dlen_field x.frame_len) (sizeof_pkg k)) p.packet
      (ground (arith, d.full, d.counted_in, h)))

-- The bridge has to report all of them.
pub reported_lem :
    (k : Params) (copies : Mbuf → Bool) {es : List Event} {ps : List AirPacket}
    → Carries k es ps
    → (address seq_num : ℕ) → is_fresh k address seq_num ps ≡ true
    → map (λ m. view (shown k m)) (reported k copies address seq_num es)
      ≡ map (λ a. view a.packet) ps
unfolding reported
reported_lem k copies silence address seq_num h = refl
reported_lem k copies (handled c) address seq_num h = reported_lem k copies c address seq_num h
reported_lem k copies (delivered {es} {ps} {x} {p} d c) address seq_num h =
    let wanted : is_wanted k copies address seq_num x ≡ true =
      rw (d.body, d.kind) (ground (arith, d.long)) in
    let h1 = p.packet.head in
    let rest = reported_lem k copies c h1.src_address h1.seq_num (ground arith) in
    let one = shown_lem k x p d (ground arith) in
    rw wanted (rw d.served (rw one (rw d.body (ap (λ qs. view p.packet ∷ qs) rest))))

-- The lines of packets that can all be copied.
unfoldable describe : ℕ → List View → List Content
describe mid [] = []
describe mid (p ∷ ps) =
    record {
      mid = mid;
      ranges = p.ranges;
      ref_anchor_addr = p.ref_anchor_addr;
      sensors = p.sensors;
    }
    ∷ describe (u32 (mid + 1)) ps

numbered_lem :
    (k : Params) (mid : ℕ) (ms : List Mbuf)
    → map content (numbered k (λ _. true) mid ms) ≡ describe mid (map (λ m. view (shown k m)) ms)
unfolding numbered describe
numbered_lem k mid [] = refl
numbered_lem k mid (m ∷ ms) = rw (numbered_lem k (u32 (mid + 1)) ms)

-- The tag between two sends: its packet has all its slots, and is for everybody.
pub record IsTag (k : Params) (b : Backhaul) : Type 0 where
  pub slots : length b.pkg.ranges ≡ k.max_ranges
  pub everybody : b.pkg.head.dst_address ≡ k.broadcast

module _ (ops : FloatOps) (k : Params) (few : k.max_ranges ≤ 255)
    (fits : sizeof_pkg k < 2 ^ 15) where
  pub ready :
      (r : Round) (b : Backhaul)
      → IsTag k b
      → is_sent k r ≡ true
      → IsReady k r.env (with_sensors r.sensors b)
  ready r b t h = record { slots = t.slots; few = few; fits = fits; room = ground arith }

  pub send-IsTag :
      (r : Round) (b : Backhaul)
      → IsTag k b
      → is_sent k r ≡ true
      → IsTag k (send ops k r.env r.dx_time (with_sensors r.sensors b)).0
  send-IsTag r b t h =
      let b' = with_sensors r.sensors b in
      let ok = ready r b t h in
      let (_, ranges, _, _) = next_round ops k r.env r.dx_time b' ok in
      record {
        slots = rw ranges (length-replicate k.max_ranges _);
        everybody = ap (λ h. h.dst_address) (send-head ops k r.env r.dx_time b' ok) ∙ t.everybody;
      }

  sends_lem :
      (rs : List Round) (mid : ℕ) (b : Backhaul)
      → IsTag k b
      → all (is_sent k) rs ≡ true
      → describe mid (map (λ a. view a.packet) (sends ops k rs b))
        ≡ expected ops k mid b.pkg.ref_anchor_addr rs
  unfolding sends expected describe
  sends_lem [] mid b t h = refl
  sends_lem (r ∷ rs) mid b t h =
      let b1 = with_sensors r.sensors b in
      let ok = ready r b t (ground arith) in
      let (p, air, ranges, _, sensors, ref, _) =
        air_copy ops k r.env r.dx_time b1 ok (ground arith) in
      let (_, _, _, ref') = next_round ops k r.env r.dx_time b1 ok in
      let rest =
        sends_lem rs (u32 (mid + 1)) (send ops k r.env r.dx_time b1).0
          (send-IsTag r b t (ground arith)) (ground arith) in
      rw (air, ranges, sensors, ref, rest, ref') refl

  pub sends-fresh :
      (rs : List Round) (address seq_num : ℕ) (b : Backhaul)
      → IsTag k b
      → all (is_sent k) rs ≡ true
      → (b.pkg.head.src_address == address) && (u8 (b.pkg.head.seq_num + 1) == seq_num) ≡ false
      → is_fresh k address seq_num (sends ops k rs b) ≡ true
  unfolding sends
  sends-fresh [] address seq_num b t h new = refl
  sends-fresh (r ∷ rs) address seq_num b t h new =
      let b1 = with_sensors r.sensors b in
      let ok = ready r b t (ground arith) in
      let (p, air, _, number, _, _, (_, calls)) =
        air_copy ops k r.env r.dx_time b1 ok (ground arith) in
      let head = air_head ops k r.env r.dx_time b1 p air in
      let b2 = (send ops k r.env r.dx_time b1).0 in
      let rest =
        sends-fresh rs (next_head ops k r.env r.dx_time b1).src_address
          (next_head ops k r.env r.dx_time b1).seq_num b2 (send-IsTag r b t (ground arith))
          (ground arith) (rw (send-head ops k r.env r.dx_time b1 ok) (ground arith)) in
      let few_enough = length-report-le ops r.env.frames in
      let length' : length (report ops r.env.frames) ≤ k.max_ranges =
        ground (arith, few_enough, ok.room) in
      rw (air, calls, head) (ground (arith, rest, t.everybody, number, length'))

  -- A tag makes a series of sends, each at a start time, with slots for all its frames, and without an
  -- error of the radio. A bridge with an empty queue gets them, each in at least the length that the
  -- send announced and less than 2 ^ 15 bytes, has room for each, and did not take a
  -- frame with the number of the first just before. Then it prints one line for each send, in order and
  -- with consecutive numbers, with exactly the frames to report and the readings that the sensors had
  -- stored; but the reference anchor in it is that of the send before. The queue handler of the bridge
  -- runs in between at any time, and once more at the end.
  pub delivered_in_order :
      (rs : List Round) (es : List Event) (tag b : Backhaul)
      → IsTag k tag
      → all (is_sent k) rs ≡ true
      → Carries k es (sends ops k rs tag)
      → b.role ≡ bridge
      → b.queue ≡ []
      → (tag.pkg.head.src_address == b.last_address)
          && (u8 (tag.pkg.head.seq_num + 1) == b.last_seq_num)
        ≡ false
      → map content (run k (λ _. true) (es ++ console ∷ []) b).1
        ≡ expected ops k b.msg_id tag.pkg.ref_anchor_addr rs
  delivered_in_order rs es tag b t h c role empty new =
      let bodies =
        reported_lem k (λ _. true) c b.last_address b.last_seq_num
          (sends-fresh rs b.last_address b.last_seq_num tag t h new) in
      ap (map content) (run-reported k (λ _. true) es b role)
      ∙ rw empty (numbered_lem k b.msg_id (reported k (λ _. true) b.last_address b.last_seq_num es))
      ∙ ap (describe b.msg_id) bodies
      ∙ sends_lem rs b.msg_id tag t h
