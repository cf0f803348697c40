-- ===== src/Backhaul/Print/Readings.antt =====
-- The line of a packet up to its measurements, as the first fields of a JSON document.
use mathlib.Core.List.{append_assoc, append-nil}
use uwb_apps.Prelude.{
  ℕ, ◌≡◌, refl, ◌∙◌, Bool, true, false, not, List, [], ◌∷◌, ◌++◌, all, all-append, ◌==◌,
  if◌then◌else◌, Bool-cases, inl, inr,
}
use uwb_apps.Prelude.Int.{ℤ, pos, to_signed, ◌+ℤ◌}
use uwb_apps.Float.{Float, FloatOps, f_1000, f_10, f_100, f_128, f_5, f_1000000, dotted}
use uwb_apps.Text.{Text, codes, dec, hex, pad, is_plain}
use uwb_apps.Text.Decimal.{all_plain-dec, all-hex}
use uwb_apps.Json.{
  Json, str, arr, item, no_items, Fields, field, emit, emit_fields, is_valid, fields_valid,
}
use uwb_apps.Json.Parts.{
  field_if, text_if, name_colon, emit-three, more_fields, fields_valid-if, int, emit-int,
  is_valid-int, commas_before, all_plain-commas_before,
}
use uwb_apps.Json.Numbers.{all_plain-pad, all_plain-dotted}
use uwb_apps.Backhaul.Packet.{ResultsPkg, SensorData}
use uwb_apps.Backhaul.Sensors.{
  compass_bit, accelerometer_bit, gyro_bit, pressure_bit, battery_bit, has_bit,
}
use uwb_apps.Backhaul.Print.{
  gps_bit, components, over, print_mode, print_ts, print_mid, print_gps, print_battery,
  print_acceleration, print_gyro, print_compass, print_pressure, print_readings,
}

module _ (ops : FloatOps) (split_ts : ℕ → ℕ × ℕ) where
  -- The values of the fields.
  abbrev ts_value : SensorData → Json
  ts_value d = let (ts_s, ts_tms) = split_ts d.ts in str (dec ts_s ++ b'.' ∷ pad 4 (dec ts_tms))

  abbrev gps_value : SensorData → Json
  gps_value d = arr (
      item (str (dotted ops 0 f_1000000 d.gps_lat))
        (item (str (dotted ops 0 f_1000000 d.gps_long)) no_items))

  abbrev vbat_value : SensorData → Json
  vbat_value d =
      str (dotted ops 2 f_100 (ops.quotient (ops.mul (ops.of_int d.battery_voltage) f_5) f_128))

  abbrev usb_value : SensorData → Json
  usb_value d = int (pos (if d.has_usb_power then 1 else 0))

  abbrev a_value : SensorData → Json
  a_value d = str (
      b'['
      ∷ (commas_before (λ v. dotted ops 0 f_1000 (over ops f_1000 v)) 0 (components d.acceleration)
          ++ b']' ∷ []))

  abbrev g_value : SensorData → Json
  g_value d = str (
      b'['
      ∷ (commas_before (λ v. dotted ops 0 f_10 (over ops f_10 v)) 0 (components d.gyro)
          ++ b']' ∷ []))

  abbrev m_value : SensorData → Json
  m_value d =
      arr (item (int d.compass.a0) (item (int d.compass.a1) (item (int d.compass.a2) no_items)))

  abbrev p_value : SensorData → Json
  p_value d = int (d.pressure +ℤ pos 101300)

  -- The fields before `rest`, which has those of the measurements.
  abbrev pub reading_fields : ℕ → ResultsPkg → Fields → Fields
  reading_fields mid p rest =
      let d = p.sensors in
      field (codes "id") (str (codes "0x" ++ pad 4 (hex p.head.src_address))) (
        field_if d.is_anchor_data (codes "mode") (str (codes "anchor")) (
          field_if (not (d.ts == 0)) (codes "ts") (ts_value d) (
            field_if true (codes "mid") (int (to_signed 32 (pos mid))) (
              field_if (has_bit gps_bit d.sensors_valid) (codes "gps") (gps_value d) (
                field_if (has_bit battery_bit d.sensors_valid) (codes "vbat") (vbat_value d) (
                  field_if (has_bit battery_bit d.sensors_valid) (codes "usb") (usb_value d) (
                    field_if (has_bit accelerometer_bit d.sensors_valid) (codes "a") (a_value d) (
                      field_if (has_bit gyro_bit d.sensors_valid) (codes "g") (g_value d) (
                        field_if (has_bit compass_bit d.sensors_valid) (codes "m") (m_value d) (
                          field_if (has_bit pressure_bit d.sensors_valid) (codes "p") (p_value d)
                            rest))))))))))

  -- The text of an optional field.
  abbrev piece : Bool → Text → Json → Text
  piece b k v = text_if b (b',' ∷ (name_colon k ++ emit v))

  mode-piece :
      (d : SensorData) → print_mode d ≡ piece d.is_anchor_data (codes "mode") (str (codes "anchor"))
  unfolding print_mode emit
  mode-piece d = refl

  ts-piece :
      (d : SensorData) → print_ts ops split_ts d ≡ piece (not (d.ts == 0)) (codes "ts") (ts_value d)
  unfolding print_ts emit
  ts-piece d = simp append_assoc

  mid-piece : (mid : ℕ) → print_mid mid ≡ piece true (codes "mid") (int (to_signed 32 (pos mid)))
  unfolding print_mid
  mid-piece mid = rw (emit-int (to_signed 32 (pos mid))) refl

  gps-piece :
      (d : SensorData)
      → print_gps ops d ≡ piece (has_bit gps_bit d.sensors_valid) (codes "gps") (gps_value d)
  unfolding print_gps emit
  gps-piece d = simp append_assoc

  battery-piece :
      (d : SensorData)
      → print_battery ops d
        ≡ piece (has_bit battery_bit d.sensors_valid) (codes "vbat") (vbat_value d)
          ++ piece (has_bit battery_bit d.sensors_valid) (codes "usb") (usb_value d)
  unfolding print_battery emit
  battery-piece d = elim (Bool-cases (has_bit battery_bit d.sensors_valid)) [
    | inl on ↦ rw on (simp (append_assoc, append-nil))
    | inr off ↦ rw off refl
  ]

  acceleration-piece :
      (d : SensorData)
      → print_acceleration ops d
        ≡ piece (has_bit accelerometer_bit d.sensors_valid) (codes "a") (a_value d)
  unfolding print_acceleration emit
  acceleration-piece d = simp append_assoc

  gyro-piece :
      (d : SensorData)
      → print_gyro ops d ≡ piece (has_bit gyro_bit d.sensors_valid) (codes "g") (g_value d)
  unfolding print_gyro emit
  gyro-piece d = simp append_assoc

  compass-piece :
      (d : SensorData)
      → print_compass d ≡ piece (has_bit compass_bit d.sensors_valid) (codes "m") (m_value d)
  unfolding print_compass
  compass-piece d = simp (emit-three, emit-int, append_assoc)

  pressure-piece :
      (d : SensorData)
      → print_pressure d ≡ piece (has_bit pressure_bit d.sensors_valid) (codes "p") (p_value d)
  unfolding print_pressure
  pressure-piece d = rw (emit-int (d.pressure +ℤ pos 101300)) refl

  ruleset pieces = (
    mode-piece, ts-piece, mid-piece, gps-piece, battery-piece, acceleration-piece, gyro-piece,
    compass-piece, pressure-piece,
  )

  pub print_readings_lem :
      (mid : ℕ) (p : ResultsPkg) (rest : Fields)
      → b'{' ∷ emit_fields (reading_fields mid p rest) true
        ≡ print_readings ops split_ts mid p ++ emit_fields rest false
  unfolding print_readings emit
  print_readings_lem mid p rest = simp (more_fields, pieces, append_assoc)

  ts-valid : (d : SensorData) → is_valid (ts_value d) ≡ true
  unfolding is_valid
  ts-valid d =
      let (ts_s, ts_tms) = split_ts d.ts in
      let tail : all is_plain (b'.' ∷ pad 4 (dec ts_tms)) ≡ true =
        all_plain-pad 4 (dec ts_tms) (all_plain-dec ts_tms) in
      all-append is_plain (dec ts_s) (b'.' ∷ pad 4 (dec ts_tms))
      ∙ rw (all_plain-dec ts_s, tail) refl

  gps-valid : (d : SensorData) → is_valid (gps_value d) ≡ true
  unfolding is_valid
  gps-valid d =
      rw (all_plain-dotted ops 0 f_1000000 d.gps_lat, all_plain-dotted ops 0 f_1000000 d.gps_long)
        refl

  vbat-valid : (d : SensorData) → is_valid (vbat_value d) ≡ true
  unfolding is_valid
  vbat-valid d = all_plain-dotted ops 2 f_100 _

  vector-valid :
      (scale : Float) (vs : List ℤ)
      → is_valid (
          str
            (b'[' ∷ (commas_before (λ v. dotted ops 0 scale (over ops scale v)) 0 vs ++ b']' ∷ [])))
        ≡ true
  unfolding is_valid
  vector-valid scale vs =
      let f = λ (v : ℤ). dotted ops 0 scale (over ops scale v) in
      all-append is_plain (commas_before f 0 vs) (b']' ∷ [])
      ∙ rw (all_plain-commas_before f (λ v. all_plain-dotted ops 0 scale (over ops scale v)) 0 vs)
          refl

  m-valid : (d : SensorData) → is_valid (m_value d) ≡ true
  unfolding is_valid
  m-valid d =
      rw (is_valid-int d.compass.a0, is_valid-int d.compass.a1, is_valid-int d.compass.a2) refl

  anchor-valid : is_valid (str (codes "anchor")) ≡ true
  unfolding is_valid
  anchor-valid = refl

  id-valid : (p : ResultsPkg) → is_valid (str (codes "0x" ++ pad 4 (hex p.head.src_address))) ≡ true
  unfolding is_valid
  id-valid p = all_plain-pad 4 (hex p.head.src_address) (all-hex p.head.src_address)

  pub reading_fields-valid :
      (mid : ℕ) (p : ResultsPkg) (rest : Fields)
      → fields_valid (reading_fields mid p rest) ≡ fields_valid rest
  reading_fields-valid mid p rest =
      let d = p.sensors in
      fields_valid-if true (codes "id") _ _ refl (id-valid p)
      ∙ fields_valid-if d.is_anchor_data (codes "mode") _ _ refl anchor-valid
      ∙ fields_valid-if (not (d.ts == 0)) (codes "ts") _ _ refl (ts-valid d)
      ∙ fields_valid-if true (codes "mid") _ _ refl (is_valid-int (to_signed 32 (pos mid)))
      ∙ fields_valid-if (has_bit gps_bit d.sensors_valid) (codes "gps") _ _ refl (gps-valid d)
      ∙ fields_valid-if (has_bit battery_bit d.sensors_valid) (codes "vbat") _ _ refl (vbat-valid d)
      ∙ fields_valid-if (has_bit battery_bit d.sensors_valid) (codes "usb") _ _ refl
          (is_valid-int (pos (if d.has_usb_power then 1 else 0)))
      ∙ fields_valid-if (has_bit accelerometer_bit d.sensors_valid) (codes "a") _ _ refl
          (vector-valid f_1000 (components d.acceleration))
      ∙ fields_valid-if (has_bit gyro_bit d.sensors_valid) (codes "g") _ _ refl
          (vector-valid f_10 (components d.gyro))
      ∙ fields_valid-if (has_bit compass_bit d.sensors_valid) (codes "m") _ _ refl (m-valid d)
      ∙ fields_valid-if (has_bit pressure_bit d.sensors_valid) (codes "p") _ _ refl
          (is_valid-int (d.pressure +ℤ pos 101300))
