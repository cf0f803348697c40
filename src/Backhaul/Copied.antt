-- ===== src/Backhaul/Copied.antt =====
-- What a copy of the first bytes of a packet into a cleared struct leaves, as
-- `process_rx_data_queue` of lib/rtdoa_backhaul/src/rtdoa_backhaul.c makes it: `memset`, then
-- `os_mbuf_copydata` of `payload_len` bytes. The struct is packed and little-endian. Its header, which is
-- a struct of the library, is shorter than a packet that is taken, and always whole.
pub mod Whole
use uwb_apps.Prelude.{
  ℕ, ◌+◌, ◌*◌, ◌-◌, ◌%◌, ◌^◌, ◌≤◌, ◌≡◌, refl, ap, sym, ◌∙◌, Bool, true, false, ◌&&◌, List, [], ◌∷◌,
  length, all, leb, if◌then◌else◌, arith,
}
use uwb_apps.Prelude.Int.{ℤ, pos, to_unsigned}
use uwb_apps.Backhaul.Packet.{
  Params, Axes, SensorData, RangeData, ResultsPkg, sizeof_sensor_data, sizeof_range_data, split_at,
}

-- A field of `width` bytes that starts at byte `from`, where `len` bytes are copied: the low bytes
-- come first, and those that are not copied are 0.
abbrev pub cut : (len from width : ℕ) → ℕ → ℕ
cut len from width x = if leb (from + width) len then x else x % 2 ^ (8 * (len - from))

-- The same of a signed field: without its last byte it is not negative.
abbrev pub cut_int : (len from width : ℕ) → ℤ → ℤ
cut_int len from width z =
    if leb (from + width) len then z else pos (to_unsigned (8 * width) z % 2 ^ (8 * (len - from)))

-- A flag in the last byte of a field.
abbrev pub cut_flag : (len end : ℕ) → Bool → Bool
cut_flag len end f = leb end len && f

abbrev pub cut_axes : (len from : ℕ) → Axes → Axes
cut_axes len from a = record {
  a0 = cut_int len from 2 a.a0;
  a1 = cut_int len (from + 2) 2 a.a1;
  a2 = cut_int len (from + 4) 2 a.a2;
}

-- `struct rtdoabh_sensor_data` at byte `from`
unfoldable pub cut_sensors : (len from : ℕ) → SensorData → SensorData
cut_sensors len from s = record {
  ts = cut len from 8 s.ts;
  sensors_valid = cut len (from + 8) 2 s.sensors_valid;
  has_usb_power = cut_flag len (from + 10) s.has_usb_power;
  is_anchor_data = cut_flag len (from + 10) s.is_anchor_data;
  gps_lat = cut len (from + 10) 4 s.gps_lat;
  gps_long = cut len (from + 14) 4 s.gps_long;
  battery_voltage = cut_int len (from + 18) 1 s.battery_voltage;
  pressure = cut_int len (from + 19) 2 s.pressure;
  compass = cut_axes len (from + 21) s.compass;
  acceleration = cut_axes len (from + 27) s.acceleration;
  gyro = cut_axes len (from + 33) s.gyro;
}

-- `struct rtdoabh_range_data` at byte `from`; the quality is in the last byte.
unfoldable pub cut_range : (len from : ℕ) → RangeData → RangeData
cut_range len from r = record {
  anchor_addr = cut len from 2 r.anchor_addr;
  diff_dist_mm = cut_int len (from + 2) 4 r.diff_dist_mm;
  rssi = cut_int len (from + 6) 2 r.rssi;
  quality = if leb (from + 8) len then r.quality else pos 0;
}

unfoldable pub cut_ranges : (len from : ℕ) → List RangeData → List RangeData
cut_ranges len from [] = []
cut_ranges len from (r ∷ rs) = cut_range len from r ∷ cut_ranges len (from + sizeof_range_data) rs

-- The first `len` bytes of a packet, and zeros.
unfoldable pub copied : Params → ℕ → ResultsPkg → ResultsPkg
copied k len p = record {
  head = p.head;
  sensors = cut_sensors len k.head_size p.sensors;
  ref_anchor_addr = cut len (k.head_size + sizeof_sensor_data) 2 p.ref_anchor_addr;
  num_ranges = cut len (split_at k) 1 p.num_ranges;
  ranges = cut_ranges len (split_at k + 1) p.ranges;
}

-- A packet that is copied up to its last entry.
abbrev pub is_whole : Params → ℕ → ResultsPkg → Bool
is_whole k len p = leb (split_at k + 1 + sizeof_range_data * p.num_ranges) len
