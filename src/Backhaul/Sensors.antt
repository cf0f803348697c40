-- ===== src/Backhaul/Sensors.antt =====
-- The sensor side of lib/rtdoa_backhaul/src/rtdoa_backhaul.c: readings are stored in the packet of
-- the inertial unit, each with its bit of `sensors_valid`.
use uwb_apps.Prelude.{ℕ, ◌+◌, ◌/◌, ◌%◌, ◌^◌, Bool, ◌&&◌, ◌==◌, if◌then◌else◌}
use uwb_apps.Prelude.Int.{ℤ, to_signed}
use uwb_apps.Float.{Float, FloatOps, f_1000, f_10, f_128, f_5, f_3, f_minus_101300}
use uwb_apps.Backhaul.Packet.{SensorData}
use uwb_apps.Backhaul.State.{Backhaul}

-- `SENSOR_TYPE_…`: the types that the callback tells apart.
pub data SensorType : Type 0 where
  accelerometer linear_accel gravity magnetic_field gyroscope pressure_type other : SensorType

-- A reading: the components with their flags `…_is_valid`. A pressure reading has the first only.
pub record Reading : Type 0 where
  pub x : Float
  pub y : Float
  pub z : Float
  pub x_is_valid : Bool
  pub y_is_valid : Bool
  pub z_is_valid : Bool

-- The bit numbers of COMPASS_ENABLED, ACCELEROMETER_ENABLED, GYRO_ENABLED, PRESSURE_ENABLED and
-- BATTERY_LEVELS_ENABLED.
abbrev pub compass_bit : ℕ
compass_bit = 3

abbrev pub accelerometer_bit : ℕ
accelerometer_bit = 4

abbrev pub gyro_bit : ℕ
gyro_bit = 5

abbrev pub pressure_bit : ℕ
pressure_bit = 6

abbrev pub battery_bit : ℕ
battery_bit = 7

-- `v & (1 << k)`
abbrev pub has_bit : ℕ → ℕ → Bool
has_bit k v = (v / 2 ^ k % 2) == 1

-- `v |= 1 << k`
abbrev pub set_bit : ℕ → ℕ → ℕ
set_bit k v = if has_bit k v then v else v + 2 ^ k

abbrev pub is_complete : Reading → Bool
is_complete r = r.x_is_valid && r.y_is_valid && r.z_is_valid

module _ (ops : FloatOps) where
  -- `(int16_t)roundf(conv*v)`
  abbrev scaled : Float → Float → ℤ
  scaled conv v = to_signed 16 (ops.round (ops.mul conv v))

  abbrev truncated : Float → ℤ
  truncated v = to_signed 16 (ops.to_int v)

  store_acceleration : Reading → SensorData → SensorData
  store_acceleration r s =
      if is_complete r
      then record s {
        acceleration = record {
          a0 = scaled f_1000 r.y;
          a1 = scaled f_1000 r.z;
          a2 = scaled f_1000 r.x;
        };
        sensors_valid = set_bit accelerometer_bit s.sensors_valid;
      }
      else s

  store_compass : Reading → SensorData → SensorData
  store_compass r s =
      if is_complete r
      then record s {
        compass = record { a0 = truncated r.z; a1 = truncated r.y; a2 = truncated r.x };
        sensors_valid = set_bit compass_bit s.sensors_valid;
      }
      else s

  store_gyro : Reading → SensorData → SensorData
  store_gyro r s =
      if is_complete r
      then record s {
        gyro = record { a0 = scaled f_10 r.y; a1 = scaled f_10 r.z; a2 = scaled f_10 r.x };
        sensors_valid = set_bit gyro_bit s.sensors_valid;
      }
      else s

  store_pressure : Reading → SensorData → SensorData
  store_pressure r s =
      if r.x_is_valid
      then record s {
        pressure = to_signed 16 (ops.to_int (ops.add r.x f_minus_101300));
        sensors_valid = set_bit pressure_bit s.sensors_valid;
      }
      else s

  -- The four tests of `rtdoa_backhaul_sensor_data_cb`, of which at most one holds.
  unfoldable pub store : SensorType → Reading → SensorData → SensorData
  unfolding store_acceleration store_compass store_gyro store_pressure
  store accelerometer r s = store_acceleration r s
  store linear_accel r s = store_acceleration r s
  store gravity r s = store_acceleration r s
  store magnetic_field r s = store_compass r s
  store gyroscope r s = store_gyro r s
  store pressure_type r s = store_pressure r s
  store other r s = s

  unfoldable pub sensor_data_cb : SensorType → Reading → Backhaul → Backhaul
  sensor_data_cb t r b =
      let p = b.pkg_imu in record b { pkg_imu = record p { sensors = store t r p.sensors } }

  -- `rtdoa_backhaul_battery_cb`: `(int8_t)(battery_volt*128/5.0)`
  unfoldable pub battery_cb : Float → Backhaul → Backhaul
  battery_cb volt b =
      let p = b.pkg_imu in
      let s = p.sensors in
      record b {
        pkg_imu = record p {
          sensors = record s {
            battery_voltage = to_signed 8 (ops.to_int (ops.div (ops.mul volt f_128) f_5));
            sensors_valid = set_bit battery_bit s.sensors_valid;
          };
        };
      }

  -- `rtdoa_backhaul_usb_cb`
  unfoldable pub usb_cb : Float → Backhaul → Backhaul
  usb_cb volt b =
      let p = b.pkg_imu in
      let s = p.sensors in
      record b { pkg_imu = record p { sensors = record s { has_usb_power = ops.less f_3 volt } } }
