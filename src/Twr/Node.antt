-- ===== src/Twr/Node.antt =====
-- apps/twr_node_tdma/src/main.c: a node that listens for ranging tags, with one radio or two. A call
-- is paired with the number of the radio that it goes to.
use uwb_apps.Prelude.{
  ℕ, ◌+◌, Bool, true, false, not, ◌&&◌, List, [], ◌∷◌, ◌++◌, u16, ◌==◌, if◌then◌else◌,
}
use uwb_apps.Radio.{
  Cmd, forcetrxoff, mac_config, txrf_config, start_rx, set_autoack, set_autoack_delay,
  set_delay_start, set_rx_timeout, set_rxauto_disable, cir_enable, rng_listen_delay, event_put,
  message, led_toggle,
}
use uwb_apps.Tdma.{Slot, in_ccp}
use uwb_apps.Float.{Float}

-- The globals: `uwb_config_updated`, `timeout` of `slot_cb`, and `g_angle`.
pub record State : Type 0 where
  pub config_updated : Bool
  pub timeout : ℕ
  pub azimuth : Float
  pub zenith : Float

-- FCNTL_IEEE_RANGE_16 and UWB_FCTRL_ACK_REQUESTED, and the test at the head of the callbacks.
pub record Codes : Type 0 where
  pub range : ℕ
  pub range_ack : ℕ
  pub nan : Float

abbrev pub is_range_frame : Codes → ℕ → Bool
is_range_frame c fctrl = not (not (fctrl == c.range) && not (fctrl == c.range_ack))

-- What `cir_complete_cb` reads with two radios: that both impulse responses are valid, the sequence
-- numbers of the frames that they took, and `uwb_calc_aoa` of their phase difference.
pub record CirEnv : Type 0 where
  pub dual : Bool
  pub valid0 : Bool
  pub valid1 : Bool
  pub seq_num0 : ℕ
  pub seq_num1 : ℕ
  pub aoa : Float

-- `cir_complete_cb`: the azimuth of the current frame, and the Boolean that is returned.
unfoldable pub cir_complete_cb : Codes → CirEnv → ℕ → Float → Float × Bool
cir_complete_cb c e fctrl azimuth =
    if not (is_range_frame c fctrl)
    then (azimuth, false)
    else if e.dual && (e.valid0 && e.valid1) && (e.seq_num0 == e.seq_num1)
    then (e.aoa, true)
    else (azimuth, true)

-- The spherical coordinates of the current frame.
pub record Spherical : Type 0 where
  pub azimuth : Float
  pub zenith : Float

-- `complete_cb`. `pdoa` is set where one receiver gives the angle `aoa`; `negate` is the float
-- negation under AOA_ANGLE_INVERT, and the identity without it.
unfoldable pub complete_cb :
    Codes
    → Bool
    → Float
    → (Float → Float)
    → ℕ
    → Spherical
    → State
    → State × Spherical × List Cmd × Bool
complete_cb c pdoa aoa negate fctrl frame s =
    let s' = if pdoa then record s { azimuth = aoa } else s in
    if not (is_range_frame c fctrl)
    then (s, frame, [], false)
    else (s', record { azimuth = negate s'.azimuth; zenith = s'.zenith }, event_put ∷ [], true)

-- `slot_complete_cb`
unfoldable pub slot_complete_cb : List Cmd
slot_complete_cb = led_toggle ∷ []

-- `uwb_mac_config` and `uwb_txrf_config` of the radio `n`.
abbrev pub reconfigure : ℕ → List (ℕ × Cmd)
reconfigure n = (n, mac_config) ∷ (n, txrf_config) ∷ []

-- Automatic acknowledgement goes with the frame filter.
abbrev pub prepare_autoack : ℕ → Bool → List (ℕ × Cmd)
prepare_autoack n frame_filter =
    if frame_filter
    then (n, set_autoack true) ∷ (n, set_autoack_delay 0) ∷ []
    else (n, set_autoack false) ∷ []

-- `uwb_config_updated_func`; `second` is MYNEWT_VAL(UWB_DEVICE_1).
unfoldable pub uwb_config_updated_func : Bool → Bool → ℕ → State → State × List (ℕ × Cmd)
uwb_config_updated_func second frame_filter ccp_sem s =
    if ccp_sem == 0
    then (
      s,
      (0, forcetrxoff)
          ∷ (reconfigure 0
              ++ ((if second then reconfigure 1 else [])
                  ++ (prepare_autoack 0 frame_filter ++ (0, start_rx) ∷ []))),
    )
    else (record s { config_updated = true }, [])

-- `slot_cb`. `inst` is the number of the radio of the TDMA instance, `request_usecs` what
-- `uwb_usecs_to_dwt_usecs` makes of the duration of a request.
unfoldable pub slot_cb : Codes → Bool → Bool → ℕ → ℕ → Slot → State → State × List (ℕ × Cmd)
slot_cb c second frame_filter inst request_usecs t s =
    let s1 = record s { azimuth = c.nan; zenith = c.nan } in
    let timeout = if s.timeout == 0 then u16 (request_usecs + t.rx_timeout_delay) else s.timeout in
    let report = if s.timeout == 0 then (inst, message) ∷ [] else [] in
    let start = t.rx_slot_start t.idx in
    if in_ccp t
    then (s1, [])
    else if s.config_updated
    then (
      record s1 { config_updated = false; timeout = 0 },
      reconfigure inst
          ++ ((if second then reconfigure 1 else []) ++ prepare_autoack inst frame_filter),
    )
    else (
      record s1 { timeout = timeout },
      report
          ++ (if second
              then (0, set_delay_start start)
                ∷ (0, set_rx_timeout timeout)
                ∷ (0, cir_enable true)
                ∷ (0, set_rxauto_disable true)
                ∷ (0, start_rx)
                ∷ (1, cir_enable true)
                ∷ (1, rng_listen_delay start timeout)
                ∷ []
              else (inst, rng_listen_delay start timeout) ∷ []),
    )
