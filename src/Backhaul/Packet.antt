-- ===== src/Backhaul/Packet.antt =====
-- The packets of lib/rtdoa_backhaul: the structures and constants of
-- lib/rtdoa_backhaul/include/rtdoa_backhaul/rtdoa_backhaul.h.
use uwb_apps.Prelude.{ℕ, ◌+◌, ◌*◌, Bool, false, List, replicate}
use uwb_apps.Prelude.Int.{ℤ, pos}
use uwb_apps.Float.{Float}

-- What the build and the libraries fix: the size of their frame header, RTDOABH_MAXNUM_RANGES, and
-- the values of UWB_BROADCAST_ADDRESS and OS_ENOMEM.
pub record Params : Type 0 where
  pub head_size : ℕ
  pub max_ranges : ℕ
  pub broadcast : ℕ
  pub enomem : ℕ

abbrev pub fcntl_ieee_rtdoabh : ℕ
fcntl_ieee_rtdoabh = 0x88C1

abbrev pub dwt_rtdoabh_code : ℕ
dwt_rtdoabh_code = 0x6003

-- Three components of an `int16_t[3]`.
pub record Axes : Type 0 where
  pub a0 : ℤ
  pub a1 : ℤ
  pub a2 : ℤ

-- `struct rtdoabh_sensor_data`
pub record SensorData : Type 0 where
  pub ts : ℕ
  pub sensors_valid : ℕ
  pub has_usb_power : Bool
  pub is_anchor_data : Bool
  pub gps_lat : Float
  pub gps_long : Float
  pub battery_voltage : ℤ
  pub pressure : ℤ
  pub compass : Axes
  pub acceleration : Axes
  pub gyro : Axes

abbrev pub sizeof_sensor_data : ℕ
sizeof_sensor_data = 8 + 2 + 4 + 4 + 1 + 2 + 6 + 6 + 6

-- `struct rtdoabh_range_data`
pub record RangeData : Type 0 where
  pub anchor_addr : ℕ
  pub diff_dist_mm : ℤ
  pub rssi : ℤ
  pub quality : ℤ

abbrev pub sizeof_range_data : ℕ
sizeof_range_data = 2 + 4 + 2

-- The fields of `struct _ieee_rng_request_frame_t` that the library sets and reads.
pub record Head : Type 0 where
  pub fctrl : ℕ
  pub seq_num : ℕ
  pub pan_id : ℕ
  pub dst_address : ℕ
  pub src_address : ℕ
  pub code : ℕ

-- `struct rtdoabh_tag_results_pkg`
pub record ResultsPkg : Type 0 where
  pub head : Head
  pub sensors : SensorData
  pub ref_anchor_addr : ℕ
  pub num_ranges : ℕ
  pub ranges : List RangeData

abbrev pub no_axes : Axes
no_axes = record { a0 = pos 0; a1 = pos 0; a2 = pos 0 }

-- What `memset` to 0 leaves.
abbrev pub zero_sensors : SensorData
zero_sensors = record {
  ts = 0;
  sensors_valid = 0;
  has_usb_power = false;
  is_anchor_data = false;
  gps_lat = 0;
  gps_long = 0;
  battery_voltage = pos 0;
  pressure = pos 0;
  compass = no_axes;
  acceleration = no_axes;
  gyro = no_axes;
}

abbrev pub zero_range : RangeData
zero_range = record { anchor_addr = 0; diff_dist_mm = pos 0; rssi = pos 0; quality = pos 0 }

-- The initial value of `g_result_pkg` and of `g_result_pkg_imu`.
unfoldable pub initial_pkg : Params → ResultsPkg
initial_pkg k = record {
  head = record {
    fctrl = fcntl_ieee_rtdoabh;
    seq_num = 0;
    pan_id = 0xDECA;
    dst_address = 0xffff;
    src_address = 0;
    code = dwt_rtdoabh_code;
  };
  sensors = zero_sensors;
  ref_anchor_addr = 0;
  num_ranges = 0;
  ranges = replicate k.max_ranges zero_range;
}

-- `offsetof(struct rtdoabh_tag_results_pkg, num_ranges)`
abbrev pub split_at : Params → ℕ
split_at k = k.head_size + sizeof_sensor_data + 2

abbrev pub sizeof_pkg : Params → ℕ
sizeof_pkg k = split_at k + 1 + sizeof_range_data * k.max_ranges
