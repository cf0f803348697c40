-- ===== src/Backhaul/Print.antt =====
-- `rtdoa_backhaul_print` of lib/rtdoa_backhaul/src/rtdoa_backhaul.c: the line of text that a packet
-- makes, in the compact form (RTDOABH_COMPACT_MEAS) and in the full one. The message number is the
-- value of `g_msg_id` before it is counted up.
pub mod Readings
pub mod Compact
pub mod Full
pub mod Decimals
use uwb_apps.Prelude.{
  ℕ, suc, ◌+◌, ◌/◌, ◌%◌, Bool, true, false, not, ◌&&◌, ◌||◌, List, [], ◌∷◌, ◌++◌, take, ltb, ◌==◌,
  if◌then◌else◌,
}
use uwb_apps.Prelude.Int.{ℤ, pos, negsuc, abs_ℤ, to_signed, to_unsigned, is_negative, ◌+ℤ◌, ltb_ℤ}
use uwb_apps.Float.{Float, FloatOps, f_1000, f_10, f_100, f_128, f_5, f_1000000, dotted}
use uwb_apps.Text.{Text, codes, dec, dec_ℤ, hex, pad}
use uwb_apps.Json.Parts.{text_if, commas_before, commas_after}
use uwb_apps.Backhaul.Packet.{ResultsPkg, SensorData, RangeData, Axes}
use uwb_apps.Backhaul.Sensors.{
  compass_bit, accelerometer_bit, gyro_bit, pressure_bit, battery_bit, has_bit,
}

abbrev pub gps_bit : ℕ
gps_bit = 0

abbrev pub components : Axes → List ℤ
components a = a.a0 ∷ a.a1 ∷ a.a2 ∷ []

-- The entries that the loops run over. An entry past the array is not modelled.
abbrev pub entries : ResultsPkg → List RangeData
entries p = take p.num_ranges p.ranges

pub print_mode : SensorData → Text
print_mode d = text_if d.is_anchor_data (codes ",\"mode\":\"anchor\"")

pub print_mid : ℕ → Text
print_mid mid = codes ",\"mid\":" ++ dec_ℤ (to_signed 32 (pos mid))

pub print_compass : SensorData → Text
print_compass d = text_if (has_bit compass_bit d.sensors_valid) (
    codes ",\"m\":["
    ++ (dec_ℤ d.compass.a0
        ++ codes ","
        ++ (dec_ℤ d.compass.a1 ++ codes "," ++ (dec_ℤ d.compass.a2 ++ codes "]"))))

pub print_pressure : SensorData → Text
print_pressure d =
    text_if (has_bit pressure_bit d.sensors_valid)
      (codes ",\"p\":" ++ dec_ℤ (d.pressure +ℤ pos 101300))

-- The four loops of the compact form. C's division truncates, so `ddist_m` and `ddist_mm` are the
-- parts of the magnitude.
abbrev pub dd_text : RangeData → Text
dd_text r =
    (if ltb_ℤ (pos 0) r.diff_dist_mm then [] else b'-' ∷ [])
    ++ (dec (abs_ℤ r.diff_dist_mm / 1000) ++ b'.' ∷ pad 3 (dec (abs_ℤ r.diff_dist_mm % 1000)))

abbrev pub column : (RangeData → Text) → ResultsPkg → Text
column f p = commas_after f p.num_ranges 0 (entries p)

-- An entry of the full form.
abbrev pub ddist_text : RangeData → Text
ddist_text r =
    (if is_negative r.diff_dist_mm then b'-' ∷ [] else [])
    ++ (dec (abs_ℤ r.diff_dist_mm / 1000) ++ b'.' ∷ pad 3 (dec (abs_ℤ r.diff_dist_mm % 1000)))

module _ (ops : FloatOps) where
  -- `(float)v/k`
  abbrev pub over : Float → ℤ → Float
  over k v = ops.quotient (ops.of_int v) k

  pub print_gps : SensorData → Text
  print_gps d = text_if (has_bit gps_bit d.sensors_valid) (
      codes ",\"gps\":[\""
      ++ (dotted ops 0 f_1000000 d.gps_lat
          ++ codes "\""
          ++ codes ",\""
          ++ (dotted ops 0 f_1000000 d.gps_long ++ codes "\"]")))

  pub print_battery : SensorData → Text
  print_battery d =
      let f = ops.quotient (ops.mul (ops.of_int d.battery_voltage) f_5) f_128 in
      text_if (has_bit battery_bit d.sensors_valid) (
        codes ",\"vbat\":\""
        ++ (dotted ops 2 f_100 f
            ++ codes "\""
            ++ codes ",\"usb\":"
            ++ dec (if d.has_usb_power then 1 else 0)))

  pub print_acceleration : SensorData → Text
  print_acceleration d = text_if (has_bit accelerometer_bit d.sensors_valid) (
      codes ",\"a\":\"["
      ++ (commas_before (λ v. dotted ops 0 f_1000 (over f_1000 v)) 0 (components d.acceleration)
          ++ codes "]\""))

  pub print_gyro : SensorData → Text
  print_gyro d = text_if (has_bit gyro_bit d.sensors_valid) (
      codes ",\"g\":\"["
      ++ (commas_before (λ v. dotted ops 0 f_10 (over f_10 v)) 0 (components d.gyro)
          ++ codes "]\""))

  abbrev pub rssi_text : RangeData → Text
  rssi_text r = dotted ops 0 f_10 (over f_10 r.rssi)

  pub compact_meas : ResultsPkg → Text
  compact_meas p =
      codes ",\"meas\":{"
      ++ codes "\"ref\":\""
      ++ (hex p.ref_anchor_addr
          ++ codes "\","
          ++ (codes "\"a\":["
              ++ (column (λ r. b'"' ∷ (hex r.anchor_addr ++ b'"' ∷ [])) p
                  ++ codes "],"
                  ++ (codes "\"dd\":["
                      ++ (column dd_text p
                          ++ codes "],"
                          ++ (codes "\"rs\":["
                              ++ (column rssi_text p
                                  ++ codes "],"
                                  ++ (codes "\"qf\":["
                                      ++ (column (λ r. hex (to_unsigned 32 r.quality)) p
                                          ++ codes "]}")))))))))

  pub full_entry : RangeData → Text
  full_entry r =
      codes "{\"addr\":\""
      ++ (hex r.anchor_addr
          ++ codes "\",\"ddist\":\""
          ++ (ddist_text r
              ++ codes "\",\"tqf\":"
              ++ (dec_ℤ r.quality ++ codes ",\"rssi\":\"" ++ (rssi_text r ++ codes "\"}"))))

  pub full_loop : Bool → ℕ → ℕ → List RangeData → Text
  full_loop tight n i [] = []
  full_loop tight n i (r ∷ rs) =
      full_entry r
      ++ ((if ltb (i + 1) n then codes "," else codes "]")
          ++ ((if tight then [] else codes "\n  ") ++ full_loop tight n (suc i) rs))

  -- `split_ts` gives `ts_s` and `ts_tms` of a time stamp: the arithmetic in `double` after
  -- `uwb_dwt_usecs_to_usecs`.
  module _ (split_ts : ℕ → ℕ × ℕ) where
    pub print_ts : SensorData → Text
    print_ts d =
        let (ts_s, ts_tms) = split_ts d.ts in
        text_if (not (d.ts == 0))
          (codes ",\"ts\":\"" ++ (dec ts_s ++ codes "." ++ (pad 4 (dec ts_tms) ++ codes "\"")))

    -- The line up to the measurements.
    pub print_readings : ℕ → ResultsPkg → Text
    print_readings mid p =
        let d = p.sensors in
        codes "{\"id\":\"0x"
        ++ (pad 4 (hex p.head.src_address)
            ++ codes "\""
            ++ (print_mode d
                ++ (print_ts d
                    ++ (print_mid mid
                        ++ (print_gps d
                            ++ (print_battery d
                                ++ (print_acceleration d
                                    ++ (print_gyro d
                                        ++ (print_compass d ++ print_pressure d)))))))))

    pub print_compact : ℕ → ResultsPkg → Text
    print_compact mid p =
        print_readings mid p ++ ((if p.num_ranges == 0 then [] else compact_meas p) ++ codes "}\n")

    pub print_full : Bool → ℕ → ResultsPkg → Text
    print_full tight mid p =
        print_readings mid p
        ++ (codes ",\"ref_anchor\":\""
            ++ (hex p.ref_anchor_addr
                ++ codes "\""
                ++ (codes ",\"meas\":["
                    ++ ((if tight || (p.num_ranges == 0) then [] else codes "\n ")
                        ++ (full_loop tight p.num_ranges 0 (entries p) ++ codes "]}\n")))))
