-- ===== src/Rtdoa/Sensors.antt =====
-- The sensor timer of apps/rtdoa_tag/src/main.c: `sensor_timer_ev_cb` and `low_battery_mode`. The
-- sensors and the battery are outside: what a read of them gives is an argument, by the number of the
-- attempt. The loops that wait for them take fuel, and return nothing when it runs out.
pub mod Ends
use uwb_apps.Prelude.{
  ℕ, zero, suc, ◌/◌, ◌^◌, Bool, true, false, ◌&&◌, List, [], ◌∷◌, ◌++◌, Option, none, some, sub_u32,
  ltb, ◌==◌, if◌then◌else◌,
}
use mathlib.Core.Option
use uwb_apps.Prelude.Int.{ℤ, pos, negsuc, ltb_ℤ}
use uwb_apps.Radio.{Cmd, callout_reset}
use uwb_apps.Float.{Float, FloatOps, DoubleOps, d_1, d_2_9, d_5, f_one_thousandth, f_tenth}
use uwb_apps.Backhaul.Packet.{Params}
use uwb_apps.Backhaul.State.{Backhaul, MbufCalls}
use uwb_apps.Backhaul.Send.{send_imu_only}
use uwb_apps.Backhaul.Sensors.{
  SensorType, accelerometer, gyroscope, magnetic_field, pressure_type, Reading, sensor_data_cb,
  battery_cb, usb_cb,
}

-- What one turn of the loop over the sensors meets: whether the manager has a sensor of the type, the
-- readings that `sensor_read` hands to the callback, and what it returns.
pub record Attempt : Type 0 where
  pub found : Bool
  pub readings : List Reading
  pub rc : ℕ

-- The turn goes on to the next sensor.
abbrev pub moves_on : Attempt → Bool
moves_on a = if a.found then a.rc == 0 else true

-- The sensor types that are read: at most every 50 ms all four. A type of SENSOR_TYPE_NONE ends the
-- list.
abbrev pub sensor_types : Bool → List SensorType
sensor_types all =
    accelerometer ∷ gyroscope ∷ (if all then magnetic_field ∷ pressure_type ∷ [] else [])

-- The calls of `low_battery_mode`.
pub data PowerCall : Type 0 where
  tdma_stop ccp_stop irq_disable rxauto_off forcetrxoff mac_config sleep_config : PowerCall
  enter_sleep run_event system_reset : PowerCall
  set_rx_timeout delay : ℕ → PowerCall
  write_led : Bool → PowerCall
  print_low print_reboot : ℤ → PowerCall

module _ (ops : FloatOps) where
  store_readings : SensorType → List Reading → Backhaul → Backhaul
  store_readings t [] b = b
  store_readings t (r ∷ rs) b = store_readings t rs (sensor_data_cb ops t r b)

  -- The `while` loop over `sensor_types`, from attempt `n`.
  unfoldable pub read_loop :
      (ℕ → SensorType → Attempt) → ℕ → ℕ → List SensorType → Backhaul → Option Backhaul
  unfolding store_readings
  read_loop attempt fuel n [] b = some b
  read_loop attempt zero n (t ∷ ts) b = none
  read_loop attempt (suc fuel) n (t ∷ ts) b =
      let a = attempt n t in
      let b' = if a.found then store_readings t a.readings b else b in
      let again = read_loop attempt fuel (suc n) (t ∷ ts) b' in
      let next = read_loop attempt fuel (suc n) ts b' in if moves_on a then next else again

-- One round of the `while` loop of `low_battery_mode`: the line, three blinks, five seconds of events.
-- `ticks` is DPL_TICKS_PER_SEC.
abbrev pub blink : ℕ → List PowerCall
blink ticks = write_led true ∷ delay 1 ∷ write_led false ∷ delay (ticks / 10) ∷ []

repeat : ℕ → List PowerCall → List PowerCall
repeat zero c = []
repeat (suc n) c = c ++ repeat n c

unfoldable pub wait_round : ℕ → ℤ → List PowerCall
unfolding repeat
wait_round ticks mv =
    print_low mv ∷ (repeat 3 (blink ticks) ++ repeat 50 (run_event ∷ delay (ticks / 10) ∷ []))

-- The loop, where reading `n` of the battery is `volts n`; it ends with a restart of the device.
unfoldable pub wait_loop : ℕ → (ℕ → ℤ) → ℕ → ℕ → Option (List PowerCall)
wait_loop ticks volts zero n = none
wait_loop ticks volts (suc fuel) n =
    let rest = wait_loop ticks volts fuel (suc n) in
    if ltb_ℤ (volts n) (pos 3000)
    then Option.map (λ calls. wait_round ticks (volts n) ++ calls) rest
    else some (print_reboot (volts n) ∷ delay ticks ∷ system_reset ∷ [])

abbrev pub shutdown : ℕ → List PowerCall
shutdown ticks =
    tdma_stop
    ∷ ccp_stop
    ∷ irq_disable
    ∷ rxauto_off
    ∷ forcetrxoff
    ∷ mac_config
    ∷ set_rx_timeout 1
    ∷ forcetrxoff
    ∷ delay (ticks / 10)
    ∷ sleep_config
    ∷ enter_sleep
    ∷ []

unfoldable pub low_battery_mode : ℕ → (ℕ → ℤ) → ℕ → Option (List PowerCall)
low_battery_mode ticks volts fuel =
    Option.map (λ calls. shutdown ticks ++ calls) (wait_loop ticks volts fuel 0)

-- The statics of `sensor_timer_ev_cb` with `g_battery_voltage`, and the backhaul.
pub record TagState : Type 0 where
  pub last_batt_update : ℕ
  pub last_mp_update : ℕ
  pub battery_voltage : Float
  pub backhaul : Backhaul

-- What `sensor_timer_ev_cb` meets: the four reads of the processor clock, the ticks of 50 ms and of one
-- second, the turns over the sensors, the battery and the USB supply in mV (-1 on boards without the
-- pin), the battery while it is low, the blocks of the message pool that are in use, whether the CCP is
-- valid, the time of the master, and the answers to the send.
pub record TimerEnv : Type 0 where
  pub now_mp : ℕ
  pub now_mp_again : ℕ
  pub now_batt : ℕ
  pub now_batt_again : ℕ
  pub ticks_50ms : ℕ
  pub ticks_1s : ℕ
  pub attempt : ℕ → SensorType → Attempt
  pub batt_mv : ℤ
  pub usb_mv : ℤ
  pub volts : ℕ → ℤ
  pub blocks_used : ℕ
  pub ccp_valid : Bool
  pub master_time : ℕ
  pub mbuf : MbufCalls

-- How the callback ends: it returns, having armed the timer again, or the device restarts.
pub data Outcome : Type 0 where
  returned : TagState → List Cmd → Outcome
  restarted : List PowerCall → Outcome

-- `ticks` is DPL_TICKS_PER_SEC and `rate` is IMU_RATE.
module _ (ops : FloatOps) (d : DoubleOps) (k : Params) (ticks rate : ℕ) where
  millivolts : ℤ → Float
  millivolts mv = ops.mul (ops.of_int mv) f_one_thousandth

  -- The new `g_battery_voltage`: the first reading, and then one in ten parts of each.
  unfoldable pub filtered : Float → ℤ → Float
  unfolding millivolts
  filtered v mv =
      if d.less_d d_5 (d.widen v)
      then millivolts mv
      else d.narrow (
          d.add_d (d.mul_d (d.widen v) (d.sub_d d_1 (d.widen f_tenth)))
            (d.widen (ops.mul (ops.mul f_tenth (ops.of_int mv)) f_one_thousandth)))

  -- The part that is run once a second.
  unfoldable pub update_battery : TimerEnv → TagState → TagState
  unfolding millivolts
  update_battery e s =
      let b = s.backhaul in
      let v = filtered s.battery_voltage e.batt_mv in
      let noted = record s { last_batt_update = e.now_batt_again } in
      let batt =
        if ltb_ℤ (negsuc 0) e.batt_mv
        then record noted { battery_voltage = v; backhaul = battery_cb ops v b }
        else noted in
      if ltb_ℤ (negsuc 0) e.usb_mv
      then record batt { backhaul = usb_cb ops (millivolts e.usb_mv) batt.backhaul }
      else batt

  -- The end of the callback: unless more than two packets are queued, the readings are sent.
  unfoldable pub report : TimerEnv → TagState → TagState
  report e s = if ltb 2 e.blocks_used then s else record s {
    backhaul =
        send_imu_only k e.mbuf (if e.ccp_valid then e.master_time / 2 ^ 16 else 0) s.backhaul;
  }

  abbrev pub reset_timer : List Cmd
  reset_timer = if rate == 0 then [] else callout_reset (ticks / rate) ∷ []

  -- The callback once the sensors are read.
  unfoldable pub after_reads : ℕ → TimerEnv → TagState → Option Outcome
  after_reads fuel e s =
      let updated = update_battery e s in
      if ltb e.ticks_1s (sub_u32 e.now_batt s.last_batt_update)
      then (if d.less_d (d.widen updated.battery_voltage) d_2_9 && ltb_ℤ e.usb_mv (pos 3000)
          then Option.map restarted (low_battery_mode ticks e.volts fuel)
          else some (returned (report e updated) reset_timer))
      else some (returned (report e s) reset_timer)

  unfoldable pub sensor_timer_ev_cb : ℕ → TimerEnv → TagState → Option Outcome
  sensor_timer_ev_cb fuel e s =
      let all = ltb e.ticks_50ms (sub_u32 e.now_mp s.last_mp_update) in
      let noted = if all then record s { last_mp_update = e.now_mp_again } else s in
      elim (read_loop ops e.attempt fuel 0 (sensor_types all) s.backhaul) [
        | none ↦ none
        | some b ↦ after_reads fuel e (record noted { backhaul = b })
      ]

-- `init_timer`
abbrev pub init_timer : ℕ → List Cmd
init_timer rate = if rate == 0 then [] else callout_reset 0 ∷ []
