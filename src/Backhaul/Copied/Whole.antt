-- ===== src/Backhaul/Copied/Whole.antt =====
-- A copy of a packet of lib/rtdoa_backhaul that reaches its last entry: what is printed of it is that of
-- the packet.
use uwb_apps.Prelude.{
  ℕ, ◌+◌, ◌*◌, ◌≤◌, ◌≡◌, refl, ap, true, List, [], ◌∷◌, length, take, arith, zero, suc,
}
use uwb_apps.Backhaul.Packet.{
  Params, Axes, SensorData, RangeData, ResultsPkg, sizeof_sensor_data, sizeof_range_data, split_at,
}
use uwb_apps.Backhaul.Copied.{cut, cut_axes, cut_sensors, cut_range, cut_ranges, copied, is_whole}
use uwb_apps.Backhaul.Send.Ranges.{counted}

cut_lem : (len from width x : ℕ) → from + width ≤ len → cut len from width x ≡ x
cut_lem len from width x h = ground (arith, h)

cut_axes_lem : (len from : ℕ) (a : Axes) → from + 6 ≤ len → cut_axes len from a ≡ a
cut_axes_lem len from a h = ground (arith, h)

cut_sensors_lem :
    (len from : ℕ) (s : SensorData) → from + sizeof_sensor_data ≤ len → cut_sensors len from s ≡ s
unfolding cut_sensors
cut_sensors_lem len from s h = ground (arith, h)

cut_range_lem :
    (len from : ℕ) (r : RangeData) → from + sizeof_range_data ≤ len → cut_range len from r ≡ r
unfolding cut_range
cut_range_lem len from r h = ground (arith, h)

length-cut_ranges :
    (len from : ℕ) (rs : List RangeData) → length (cut_ranges len from rs) ≡ length rs
unfolding cut_ranges
length-cut_ranges len from [] = refl
length-cut_ranges len from (r ∷ rs) = ap suc (length-cut_ranges len (from + sizeof_range_data) rs)

take-cut_ranges :
    (n len from : ℕ) (rs : List RangeData)
    → from + sizeof_range_data * n ≤ len
    → take n (cut_ranges len from rs) ≡ take n rs
unfolding cut_ranges
take-cut_ranges zero len from rs h = refl
take-cut_ranges (suc n) len from [] h = refl
take-cut_ranges (suc n) len from (r ∷ rs) h =
    rw (cut_range_lem len from r (omega (arith, h)))
      (ap (λ qs. r ∷ qs) (take-cut_ranges n len (from + sizeof_range_data) rs (omega (arith, h))))

-- What is printed of a packet, beside its header.
pub record View : Type 0 where
  pub sensors : SensorData
  pub ref_anchor_addr : ℕ
  pub ranges : List RangeData
  pub num_ranges : ℕ
  pub slots : ℕ

abbrev pub view : ResultsPkg → View
view p = record {
  sensors = p.sensors;
  ref_anchor_addr = p.ref_anchor_addr;
  ranges = counted p;
  num_ranges = p.num_ranges;
  slots = length p.ranges;
}

-- A copy that reaches the last entry is printed as the packet is.
pub view-copied :
    (k : Params) (len : ℕ) (p : ResultsPkg)
    → is_whole k len p ≡ true
    → view (copied k len p) ≡ view p
unfolding copied
view-copied k len p h =
    let whole : split_at k + 1 + sizeof_range_data * p.num_ranges ≤ len = ground (arith, h) in
    rw
      (
        cut_sensors_lem len k.head_size p.sensors (omega (arith, whole)),
        cut_lem len (k.head_size + sizeof_sensor_data) 2 p.ref_anchor_addr (omega (arith, whole)),
        cut_lem len (split_at k) 1 p.num_ranges (omega (arith, whole)),
        length-cut_ranges,
        take-cut_ranges p.num_ranges len (split_at k + 1) p.ranges whole,
      )
      refl

-- Of a packet without its count and its reference anchor, as the sensor timer makes it, the readings are left.
pub view-readings :
    (k : Params) (p : ResultsPkg)
    → p.ref_anchor_addr ≡ 0
    → p.num_ranges ≡ 0
    → view (copied k (k.head_size + sizeof_sensor_data) p) ≡ view p
unfolding copied
view-readings k p no_anchor no_ranges =
    rw
      (
        no_anchor,
        no_ranges,
        length-cut_ranges,
        cut_sensors_lem (k.head_size + sizeof_sensor_data) k.head_size p.sensors (omega arith),
      )
      (ground arith)
