-- ===== src/Rtdoa/Sensors/Ends.antt =====
-- When the loops of the sensor timer of apps/rtdoa_tag/src/main.c end.
use uwb_apps.Prelude.{
  ℕ, zero, suc, ◌+◌, ◌*◌, ◌≤◌, ◌<◌, ◌≡◌, ◌∙◌, refl, sym, ap, Bool, true, false, ◌&&◌, List, [], ◌∷◌,
  ◌++◌, Option, none, some, length, arith, Bool-cases, inl, inr, if◌then◌else◌, ltb, sub_u32,
}
use mathlib.Core.Option
use mathlib.Core.List.{Memᴰ, append_assoc}
use uwb_apps.Prelude.Int.{ℤ, pos, ltb_ℤ}
use uwb_apps.Float.{FloatOps, DoubleOps, d_2_9}
use uwb_apps.Backhaul.Packet.{Params}
use uwb_apps.Backhaul.State.{Backhaul}
use uwb_apps.Backhaul.Sensors.{SensorType, accelerometer}
use uwb_apps.Rtdoa.Sensors.{
  Attempt, moves_on, sensor_types, PowerCall, delay, print_reboot, system_reset, read_loop,
  wait_round, wait_loop, shutdown, low_battery_mode, TagState, TimerEnv, Outcome, returned,
  restarted, after_reads, update_battery, report, sensor_timer_ev_cb, reset_timer,
}

-- Whenever a sensor is tried, one of the next `patience` turns is done with it.
abbrev pub IsPatient : (ℕ → SensorType → Attempt) → ℕ → Type 0
IsPatient attempt patience =
    (n : ℕ) (t : SensorType) → (j : ℕ) × (j < patience) × (moves_on (attempt (n + j) t) ≡ true)

module _ (ops : FloatOps) (attempt : ℕ → SensorType → Attempt) where
  abbrev Ends : ℕ → ℕ → List SensorType → Backhaul → Type 0
  Ends fuel n ts b = (b' : Backhaul) × (read_loop ops attempt fuel n ts b ≡ some b')

  -- The loop ends if it leaves the first sensor after `j` turns and ends from there.
  Ends-wait :
      (j n fuel : ℕ) (t : SensorType) (ts : List SensorType) (b : Backhaul)
      → moves_on (attempt (n + j) t) ≡ true
      → j < fuel
      → ((m f : ℕ) (c : Backhaul) → fuel ≤ f + suc j → Ends f m ts c)
      → Ends fuel n (t ∷ ts) b
  unfolding read_loop
  Ends-wait j n zero t ts b done h rest = absurd (omega arith)
  Ends-wait zero n (suc fuel) t ts b done h rest =
      let now : moves_on (attempt n t) ≡ true =
        ap (λ i. moves_on (attempt i t)) (omega arith) ∙ done in
      rw now (rest (suc n) fuel _ (omega arith))
  Ends-wait (suc j) n (suc fuel) t ts b done h rest = elim (Bool-cases (moves_on (attempt n t))) [
    | inl now ↦ rw now (rest (suc n) fuel _ (omega arith))
    | inr later ↦
        let i : suc n + j ≡ n + suc j = omega arith in
        rw later (
          Ends-wait j (suc n) fuel t ts _ (ap (λ i'. moves_on (attempt i' t)) i ∙ done)
            (omega arith) (λ m f c g. rest m f c (omega arith)))
  ]

  read_loop-Ends :
      (patience : ℕ) (ts : List SensorType) (fuel n : ℕ) (b : Backhaul)
      → IsPatient attempt patience
      → patience * length ts ≤ fuel
      → Ends fuel n ts b
  unfolding read_loop
  read_loop-Ends patience [] fuel n b wait h = (b, refl)
  read_loop-Ends patience (t ∷ ts) fuel n b wait h =
      let (j, j_lt, done) = wait n t in
      let enough : patience + patience * length ts ≤ fuel = omega arith in
      Ends-wait j n fuel t ts b done (omega arith)
        (λ m f c g. read_loop-Ends patience ts f m c wait (omega arith))

  -- A sensor that fails at every turn is tried for ever.
  read_loop-stuck :
      (fuel n : ℕ) (ts : List SensorType) (t : SensorType) (b : Backhaul)
      → Memᴰ t ts
      → ((i : ℕ) → moves_on (attempt i t) ≡ false)
      → read_loop ops attempt fuel n ts b ≡ none
  unfolding read_loop
  read_loop-stuck zero n [] t b m fails = elim m [ ]
  read_loop-stuck (suc fuel) n [] t b m fails = elim m [ ]
  read_loop-stuck zero n (u ∷ ts) t b m fails = refl
  read_loop-stuck (suc fuel) n (u ∷ ts) t b (Memᴰ.head e) fails =
      let here : moves_on (attempt n u) ≡ false =
        ap (λ v. moves_on (attempt n v)) (sym e) ∙ fails n in
      rw here (read_loop-stuck fuel (suc n) (u ∷ ts) t _ (Memᴰ.head e) fails)
  read_loop-stuck (suc fuel) n (u ∷ ts) t b (Memᴰ.tail m) fails =
      elim (Bool-cases (moves_on (attempt n u))) [
        | inl now ↦ rw now (read_loop-stuck fuel (suc n) ts t _ m fails)
        | inr later ↦ rw later (read_loop-stuck fuel (suc n) (u ∷ ts) t _ (Memᴰ.tail m) fails)
      ]

abbrev pub is_low : ℤ → Bool
is_low mv = ltb_ℤ mv (pos 3000)

module _ (ticks : ℕ) (volts : ℕ → ℤ) where
  -- The calls of `m` rounds from reading `n`.
  abbrev pub rounds : ℕ → ℕ → List PowerCall
  rounds n zero = []
  rounds n (suc m) = wait_round ticks (volts n) ++ rounds (suc n) m

  wait_loop_lem :
      (m n last fuel : ℕ)
      → n + m ≡ last
      → ((i : ℕ) → n ≤ i → i < last → is_low (volts i) ≡ true)
      → is_low (volts last) ≡ false
      → m < fuel
      → wait_loop ticks volts fuel n
        ≡ some (rounds n m ++ print_reboot (volts last) ∷ delay ticks ∷ system_reset ∷ [])
  unfolding wait_loop
  wait_loop_lem m n last zero i low good h = absurd (omega arith)
  wait_loop_lem zero n last (suc fuel) i low good h =
      let same : n ≡ last = omega arith in rw same (rw good refl)
  wait_loop_lem (suc m) n last (suc fuel) i low good h = rw (low n (omega arith) (omega arith)) (
      ap (Option.map (λ calls. wait_round ticks (volts n) ++ calls)) (
        wait_loop_lem m (suc n) last fuel (omega arith) (λ j g. low j (omega arith)) good
          (omega arith))
      ∙ ap some (sym (append_assoc (wait_round ticks (volts n)) _ _)))

  wait_loop-ends :
      (m n fuel : ℕ)
      → is_low (volts (n + m)) ≡ false
      → m < fuel
      → (calls : List PowerCall) × (wait_loop ticks volts fuel n ≡ some calls)
  unfolding wait_loop
  wait_loop-ends m n zero good h = absurd (omega arith)
  wait_loop-ends zero n (suc fuel) good h =
      let now : is_low (volts n) ≡ false = ap (λ i. is_low (volts i)) (omega arith) ∙ good in
      rw now (_, refl)
  wait_loop-ends (suc m) n (suc fuel) good h =
      let i : suc n + m ≡ n + suc m = omega arith in
      let (calls, e) =
        wait_loop-ends m (suc n) fuel (ap (λ i'. is_low (volts i')) i ∙ good) (omega arith) in
      elim (Bool-cases (is_low (volts n))) [
        | inl low ↦ rw low (rw e (_, refl))
        | inr now ↦ rw now (_, refl)
      ]

  -- In low-battery mode the tag shuts its radio down and waits round after round, with a line, three
  -- blinks and fifty looks at the event queue in each, until the battery first reads 3 V or more; then
  -- it restarts. With more fuel than rounds this is the whole run.
  low_battery_mode_lem :
      (m fuel : ℕ)
      → ((i : ℕ) → i < m → is_low (volts i) ≡ true)
      → is_low (volts m) ≡ false
      → m < fuel
      → low_battery_mode ticks volts fuel
        ≡ some (
            shutdown ticks
            ++ (rounds 0 m ++ print_reboot (volts m) ∷ delay ticks ∷ system_reset ∷ []))
  unfolding low_battery_mode
  low_battery_mode_lem m fuel low good h =
      ap (Option.map (λ calls. shutdown ticks ++ calls))
        (wait_loop_lem m 0 m fuel (omega arith) (λ i g. low i) good h)

abbrev EndsWith : Option Outcome → Type 0
EndsWith r = (o : Outcome) × (r ≡ some o)

EndsWith-if :
    (b : Bool) (x y : Option Outcome) → EndsWith x → EndsWith y → EndsWith (if b then x else y)
EndsWith-if true x y e f = e
EndsWith-if false x y e f = f

sensor_types-le : (patience : ℕ) (all : Bool) → patience * length (sensor_types all) ≤ patience * 4
sensor_types-le patience true = omega arith
sensor_types-le patience false = omega arith

module _ (ops : FloatOps) (d : DoubleOps) (k : Params) (ticks rate : ℕ) where
  after_reads-ends :
      (fuel m : ℕ) (e : TimerEnv) (s : TagState)
      → is_low (e.volts m) ≡ false
      → m < fuel
      → (o : Outcome) × (after_reads ops d k ticks rate fuel e s ≡ some o)
  unfolding after_reads low_battery_mode
  after_reads-ends fuel m e s good h =
      let updated = update_battery ops d k ticks rate e s in
      let low = low_battery_mode ticks e.volts fuel in
      let on : Option Outcome =
        some (returned (report ops d k ticks rate e updated) (reset_timer ops d k ticks rate)) in
      let (calls, c) =
        wait_loop-ends ticks e.volts m 0 fuel (ap (λ i. is_low (e.volts i)) (omega arith) ∙ good)
          h in
      EndsWith-if (ltb e.ticks_1s (sub_u32 e.now_batt s.last_batt_update)) _ _
        (EndsWith-if (d.less_d (d.widen updated.battery_voltage) d_2_9 && ltb_ℤ e.usb_mv (pos 3000))
          (Option.map restarted low) on (rw c (_, refl)) (_, refl))
        (_, refl)

  -- The callback of the sensor timer ends, if any sensor that is tried again and again is done within
  -- `patience` turns, and the battery once reads 3 V or more: fuel for four sensors and for the rounds
  -- up to that reading is enough.
  pub sensor_timer_ev_cb-ends :
      (patience m fuel : ℕ) (e : TimerEnv) (s : TagState)
      → IsPatient e.attempt patience
      → is_low (e.volts m) ≡ false
      → patience * 4 + m < fuel
      → (o : Outcome) × (sensor_timer_ev_cb ops d k ticks rate fuel e s ≡ some o)
  unfolding sensor_timer_ev_cb read_loop
  sensor_timer_ev_cb-ends patience m fuel e s wait good h =
      let all = ltb e.ticks_50ms (sub_u32 e.now_mp s.last_mp_update) in
      let types = sensor_types-le patience all in
      let (b, r) =
        read_loop-Ends ops e.attempt patience (sensor_types all) fuel 0 s.backhaul wait
          (omega arith) in
      rw r (after_reads-ends fuel m e _ good (omega arith))

  -- An accelerometer that is present and fails at every read holds the callback of the sensor timer
  -- for ever: it ends with no amount of fuel, whatever the other sensors answer.
  pub sensor_timer_ev_cb-stuck :
      (fuel : ℕ) (e : TimerEnv) (s : TagState)
      → ((i : ℕ) → moves_on (e.attempt i accelerometer) ≡ false)
      → sensor_timer_ev_cb ops d k ticks rate fuel e s ≡ none
  unfolding sensor_timer_ev_cb read_loop
  sensor_timer_ev_cb-stuck fuel e s fails =
      let all = ltb e.ticks_50ms (sub_u32 e.now_mp s.last_mp_update) in
      rw
        (read_loop-stuck ops e.attempt fuel 0 (sensor_types all) accelerometer s.backhaul
          (Memᴰ.head refl) fails)
        refl
