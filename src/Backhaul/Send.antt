-- ===== src/Backhaul/Send.antt =====
-- Sending in lib/rtdoa_backhaul/src/rtdoa_backhaul.c: `rtdoa_backhaul_send` with its loop over the
-- frames of the anchors, `update_range_stats`, and `rtdoa_backhaul_send_imu_only`.
pub mod Ranges
pub mod Packing
use uwb_apps.Prelude.{
  ℕ, zero, suc, ◌+◌, ◌*◌, ◌-◌, Bool, true, false, not, ◌&&◌, List, [], ◌∷◌, ◌++◌, get_or, set, map,
  Option, none, some, replicate, u8, u32, ltb, ◌==◌, if◌then◌else◌,
}
use uwb_apps.Prelude.Int.{ℤ, to_signed, to_unsigned, abs_ℤ}
use uwb_apps.Radio.{Cmd, set_delay_start, write_tx_fctrl, write_tx, start_tx, message}
use uwb_apps.Float.{Float, FloatOps, f_1000, f_half, f_10}
use uwb_apps.Backhaul.Packet.{
  Params, ResultsPkg, RangeData, sizeof_range_data, sizeof_sensor_data, split_at, sizeof_pkg,
  zero_range, zero_sensors, dwt_rtdoabh_code,
}
use uwb_apps.Backhaul.State.{Backhaul, Stats, MbufCalls, is_bridge, local_send}

-- A frame of the RTDoA instance: its source address, and what the libraries compute from it:
-- `rtdoa_tdoa_between_frames`, `uwb_calc_rssi` and `uwb_estimate_los`.
pub record Frame : Type 0 where
  pub src_address : ℕ
  pub diff : Float
  pub rssi : Float
  pub los : Float

-- What a call of `rtdoa_backhaul_send` reads of the RTDoA instance, and what the radio and the
-- kernel answer.
pub record SendEnv : Type 0 where
  pub req_src_address : ℕ
  pub frames : List Frame
  pub start_tx_error : Bool
  pub mbuf : MbufCalls

-- `dlen` after the unused slots are taken off; at most `max_ranges` are used.
unfoldable pub packet_len : Params → ℕ → ℕ
packet_len k n = sizeof_pkg k - sizeof_range_data * (k.max_ranges - n)

-- The packet at the first `uwb_write_tx`. The reference anchor is filled in after it.
unfoldable pub begin_packet : ResultsPkg → ResultsPkg
begin_packet p =
    let h = p.head in
    record p {
      head = record h { seq_num = u8 (h.seq_num + 1); code = dwt_rtdoabh_code };
      num_ranges = 0;
    }

-- What the transmit buffer holds after both writes: the first brings the bytes before `split_at`
-- and one more of the packet `p` as it was then, the second those from `split_at` on of `q`.
pub tx_buffer : ResultsPkg → ResultsPkg → ResultsPkg
tx_buffer p q = record q { head = p.head; sensors = p.sensors; ref_anchor_addr = p.ref_anchor_addr }

-- The buffers after `exit_err`.
unfoldable pub clear_packet : Params → ResultsPkg → ResultsPkg
clear_packet k p = record p { sensors = zero_sensors; ranges = replicate k.max_ranges zero_range }

-- The radio calls of a send at `dx_time`, for a packet of `dlen` bytes.
unfoldable pub air_calls : Params → ℕ → ℕ → Bool → List Cmd
air_calls k dx_time dlen failed =
    if dx_time == 0
    then []
    else write_tx 0 (split_at k + 1)
      ∷ set_delay_start dx_time
      ∷ write_tx_fctrl dlen
      ∷ write_tx (split_at k) (dlen - split_at k)
      ∷ start_tx
      ∷ (if failed then message ∷ [] else [])

-- `RTDOABH_STATS_INC(tx_err)`, or `tx_ok` where more than the count of ranges was sent.
unfoldable pub count_tx : Params → ℕ → ℕ → Bool → Stats → Stats
count_tx k dx_time dlen failed s =
    if dx_time == 0
    then s
    else if failed
    then record s { tx_err = u32 (s.tx_err + 1) }
    else if ltb 1 (dlen - split_at k)
    then record s { tx_ok = u32 (s.tx_ok + 1) }
    else s

module _ (ops : FloatOps) where
  open ops use {is_nan, add, mul, to_int, floor}

  -- `(int32_t)(diff*1000.0f + 0.5f)`
  pub diff_mm : Float → ℤ
  diff_mm d = to_signed 32 (to_int (add (mul d f_1000) f_half))

  pub rssi_field : Float → ℤ
  rssi_field r = to_signed 14 (to_int (mul r f_10))

  unfoldable pub quality_field : Float → ℤ
  quality_field q = to_signed 2 (to_int q)

  -- `update_range_stats`: the counters of anchors 0 to 3 are cleared and set.
  unfoldable pub update_range_stats : ℕ → ℤ → Float → Stats → Stats
  update_range_stats anchor range rssi s = record s {
    anchors = set s.anchors anchor (to_unsigned 32 range, u32 (abs_ℤ (floor rssi)));
  }

  -- What one turn of the loop writes into the packet.
  unfoldable pub add_range : Frame → ResultsPkg → ResultsPkg
  add_range f p =
      let old = get_or p.ranges p.num_ranges zero_range in
      let part = record old { diff_dist_mm = diff_mm f.diff } in
      let full = record part {
        anchor_addr = f.src_address;
        rssi = rssi_field f.rssi;
        quality = quality_field f.los;
      } in
      if is_nan f.diff
      then p
      else if f.src_address == 0
      then record p { ranges = set p.ranges p.num_ranges part }
      else record p { ranges = set p.ranges p.num_ranges full; num_ranges = u8 (p.num_ranges + 1) }

  -- What it counts: frame `i` of the instance.
  unfoldable pub count_range : ℕ → Frame → Stats → Stats
  count_range i f s =
      if is_nan f.diff
      then s
      else if f.src_address == 0
      then s
      else update_range_stats i (diff_mm f.diff) f.rssi
          (record s { num_ranges = u32 (s.num_ranges + 1) })

  -- `for (int i = 0; i < rtdoa->nframes; i++)`
  unfoldable pub range_loop : ℕ → List Frame → ResultsPkg × Stats → ResultsPkg × Stats
  range_loop i [] s = s
  range_loop i (f ∷ fs) (p, s) = range_loop (suc i) fs (add_range f p, count_range i f s)

  -- `rtdoa_backhaul_send`: the new state, the radio calls, and what the transmit buffer holds. A
  -- send with no `dx_time` stays off the air; a failed transmission skips the local copy.
  unfoldable pub send : Params → SendEnv → ℕ → Backhaul → Backhaul × List Cmd × Option ResultsPkg
  send k e dx_time b =
      let begun = begin_packet b.pkg in
      let named = record begun { ref_anchor_addr = e.req_src_address } in
      let (p, s) = range_loop 0 e.frames (named, b.stats) in
      let dlen = packet_len k p.num_ranges in
      let failed = not (dx_time == 0) && e.start_tx_error in
      let sent = record b { pkg = p; stats = count_tx k dx_time dlen failed s } in
      let copied =
        if failed
        then sent
        else if is_bridge b.role
        then (local_send k e.mbuf p dlen sent).0
        else sent in
      (
        record copied { pkg = clear_packet k copied.pkg },
        air_calls k dx_time dlen failed,
        if dx_time == 0 then none else some (tx_buffer begun p),
      )

-- `rtdoa_backhaul_send_imu_only`
unfoldable pub send_imu_only : Params → MbufCalls → ℕ → Backhaul → Backhaul
send_imu_only k m ts b =
    let q = b.pkg_imu in
    let h = q.head in
    let s = q.sensors in
    let p = record q {
      head = record h { seq_num = u8 (h.seq_num + 1) };
      sensors = record s { ts = ts };
    } in
    let sent = (local_send k m p (k.head_size + sizeof_sensor_data) (record b { pkg_imu = p })).0 in
    record sent { pkg_imu = record p { sensors = zero_sensors } }
