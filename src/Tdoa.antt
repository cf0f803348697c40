-- ===== src/Tdoa.antt =====
-- apps/tdoa_tag/src/main.c: a tag that blinks at a rate set by its configuration, and sleeps between
-- blinks.
pub mod Blink
mod Conf
use uwb_apps.Prelude.{
  ℕ, suc, ◌+◌, ◌-◌, ◌/◌, ◌%◌, ◌^◌, Bool, true, false, not, ◌&&◌, List, [], ◌∷◌, ◌++◌, u8, ◌==◌,
  if◌then◌else◌,
}
use uwb_apps.Prelude.Int.{ℤ, pos, negsuc, ltb_ℤ}
use uwb_apps.Radio.{
  Cmd, forcetrxoff, rx_reset, sleep_config, enter_sleep, wakeup, mac_config, txrf_config,
  enter_sleep_after_tx, write_tx_fctrl, write_tx, start_tx, callout_reset, led, message,
}

-- The globals `g_blink_rate` and `config_changed`, the sequence number of the frame, and whether
-- `tdoa_callout` is armed.
pub record Tag : Type 0 where
  pub blink_rate : ℤ
  pub config_changed : Bool
  pub seq_num : ℕ
  pub armed : Bool

abbrev pub is_zero : ℤ → Bool
is_zero (pos n) = n == 0
is_zero (negsuc n) = false

-- `DPL_TICKS_PER_SEC/g_blink_rate` as the unsigned ticks of a callout; C rounds towards 0.
unfoldable pub blink_ticks : ℕ → ℤ → ℕ
blink_ticks per_sec (pos n) = per_sec / n
blink_ticks per_sec (negsuc n) = (2 ^ 32 - per_sec / suc n) % 2 ^ 32

abbrev pub arm : ℕ → Tag → Tag × List Cmd
arm per_sec t = (record t { armed = true }, callout_reset (blink_ticks per_sec t.blink_rate) ∷ [])

-- `uwb_conf_commit`; `value` is what `conf_value_from_str` leaves in `g_blink_rate`.
unfoldable pub uwb_conf_commit : ℕ → ℤ → Tag → Tag × List Cmd
uwb_conf_commit per_sec value t =
    let t' = record t { blink_rate = value } in
    if ltb_ℤ (pos 0) value && is_zero t.blink_rate then arm per_sec t' else (t', [])

-- `uwb_config_updated`
unfoldable pub uwb_config_updated : Tag → Tag
uwb_config_updated t = record t { config_changed = true }

-- `uwb_sleep`
unfoldable pub uwb_sleep : List Cmd
uwb_sleep = forcetrxoff ∷ rx_reset ∷ sleep_config ∷ sleep_config ∷ enter_sleep ∷ []

-- `tdoa_timer_ev_cb`: the callout has fired. `frame_size` is the size of a blink frame.
unfoldable pub tdoa_timer_ev_cb : ℕ → ℕ → Bool → Bool → Tag → Tag × List Cmd
tdoa_timer_ev_cb per_sec frame_size sleeping start_tx_error t =
    let fired = record t { armed = false; config_changed = false; seq_num = u8 (t.seq_num + 1) } in
    let calls =
      led true
      ∷ ((if sleeping then wakeup ∷ [] else [])
          ++ ((if t.config_changed then mac_config ∷ txrf_config ∷ [] else [])
              ++ sleep_config
                ∷ enter_sleep_after_tx (ltb_ℤ t.blink_rate (pos 10))
                ∷ write_tx_fctrl frame_size
                ∷ start_tx
                ∷ (if start_tx_error then message else write_tx 0 frame_size)
                ∷ led false
                ∷ [])) in
    if is_zero t.blink_rate
    then (fired, calls)
    else (let (t', again) = arm per_sec fired in (t', calls ++ again))

-- `init_timer`
unfoldable pub init_timer : ℕ → Tag → Tag × List Cmd
init_timer per_sec t = if is_zero t.blink_rate then (t, []) else arm per_sec t
