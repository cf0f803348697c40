-- ===== src/Backhaul/SensorFlags.antt =====
-- The bits of `sensors_valid` in lib/rtdoa_backhaul: which readings set which bit.
use uwb_apps.Prelude.{ℕ, ◌≡◌, Bool, false, ◌||◌, ◌==◌, arith}
use uwb_apps.Float.{FloatOps}
use uwb_apps.Backhaul.Packet.{SensorData}
use uwb_apps.Backhaul.Sensors.{
  SensorType, accelerometer, linear_accel, gravity, magnetic_field, gyroscope, pressure_type, other,
  Reading, compass_bit, accelerometer_bit, gyro_bit, pressure_bit, battery_bit, has_bit, set_bit,
  is_complete, store,
}

pub data Flag : Type 0 where
  compass acceleration gyro pressure battery : Flag

abbrev pub bit_of : Flag → ℕ
bit_of compass = compass_bit
bit_of acceleration = accelerometer_bit
bit_of gyro = gyro_bit
bit_of pressure = pressure_bit
bit_of battery = battery_bit

-- The flag that a reading of a type raises.
abbrev pub raises : SensorType → Reading → Flag → Bool
raises accelerometer r acceleration = is_complete r
raises linear_accel r acceleration = is_complete r
raises gravity r acceleration = is_complete r
raises magnetic_field r compass = is_complete r
raises gyroscope r gyro = is_complete r
raises pressure_type r pressure = r.x_is_valid
raises _ r _ = false

same : Flag → Flag → Bool
same f g = bit_of f == bit_of g

-- A bit that is set leaves the others alone.
has_bit-set_bit :
    (f g : Flag) (v : ℕ)
    → has_bit (bit_of f) (set_bit (bit_of g) v) ≡ has_bit (bit_of f) v || same f g
unfolding same
has_bit-set_bit compass compass v = ground arith
has_bit-set_bit compass g v = ground arith
has_bit-set_bit acceleration compass v = ground arith
has_bit-set_bit acceleration g v = ground arith
has_bit-set_bit gyro compass v = ground arith
has_bit-set_bit gyro g v = ground arith
has_bit-set_bit pressure compass v = ground arith
has_bit-set_bit pressure g v = ground arith
has_bit-set_bit battery compass v = ground arith
has_bit-set_bit battery g v = ground arith

-- After a reading, a flag is up exactly if it was up before or the reading raises it: a complete
-- reading of the sensor of that flag.
store_flags :
    (ops : FloatOps) (t : SensorType) (r : Reading) (s : SensorData) (f : Flag)
    → has_bit (bit_of f) (store ops t r s).sensors_valid
      ≡ has_bit (bit_of f) s.sensors_valid || raises t r f
unfolding store same
store_flags ops accelerometer r s f = ground (arith, has_bit-set_bit f acceleration s.sensors_valid)
store_flags ops linear_accel r s f = ground (arith, has_bit-set_bit f acceleration s.sensors_valid)
store_flags ops gravity r s f = ground (arith, has_bit-set_bit f acceleration s.sensors_valid)
store_flags ops magnetic_field r s f = ground (arith, has_bit-set_bit f compass s.sensors_valid)
store_flags ops gyroscope r s f = ground (arith, has_bit-set_bit f gyro s.sensors_valid)
store_flags ops pressure_type r s f = ground (arith, has_bit-set_bit f pressure s.sensors_valid)
store_flags ops other r s f = ground arith
