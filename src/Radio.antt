-- ===== src/Radio.antt =====
-- What the applications ask of their environment: calls into decawave-uwb-core (the radio driver,
-- TDMA, CCP, ranging, RTDoA, transport and newtmgr services) and into the Mynewt kernel. That code
-- is not in this repository, so a call is an entry of a trace, with the arguments that the source
-- passes, and what a call returns is a field of the handler's environment.
use uwb_apps.Prelude.{ℕ, ◌*◌, ◌/◌, ◌%◌, ◌^◌, Bool, true, false}

pub data Cmd : Type 0 where
  -- radio device: configuration and state
  forcetrxoff mac_config txrf_config start_rx start_tx : Cmd
  rx_reset wakeup sleep_config enter_sleep : Cmd
  enter_sleep_after_tx set_autoack set_rxauto_disable set_dblrxbuff cir_enable : Bool → Cmd
  set_delay_start set_rx_timeout set_autoack_delay : ℕ → Cmd
  write_tx_fctrl : ℕ → Cmd
  -- write_tx offset length
  write_tx : ℕ → ℕ → Cmd
  -- two-way ranging: request address code, request_delay address time code, listen timeout
  rng_request : ℕ → ℕ → Cmd
  rng_request_delay : ℕ → ℕ → ℕ → Cmd
  rng_listen : ℕ → Cmd
  -- time timeout
  rng_listen_delay : ℕ → ℕ → Cmd
  -- ranging with n nodes: address time slot-mask
  nrng_request : ℕ → ℕ → ℕ → Cmd
  nrng_listen : Cmd
  -- reverse TDoA: request time; listen time timeout
  rtdoa_request : ℕ → Cmd
  rtdoa_listen : ℕ → ℕ → Cmd
  -- newtmgr over UWB: process_tx_queue time; listen time timeout
  nmgr_process_tx : ℕ → Cmd
  nmgr_listen : ℕ → ℕ → Cmd
  -- transport: dequeue_tx start end; listen start end; enqueue destination first-bytes
  transport_dequeue : ℕ → ℕ → Cmd
  transport_listen : ℕ → ℕ → Cmd
  -- kernel: an event put on the default queue, a callout armed, the LED, console output
  event_put : Cmd
  callout_reset : ℕ → Cmd
  callout_stop : Cmd
  led : Bool → Cmd
  led_toggle : Cmd
  message : Cmd
  -- time of flight stored for an address
  set_tof : ℕ → ℕ → Cmd

-- Calls by which the device itself starts a ranging or location transmission.
unfoldable pub is_request : Cmd → Bool
is_request (rng_request a m) = true
is_request (rng_request_delay a t m) = true
is_request (nrng_request a t m) = true
is_request (rtdoa_request t) = true
is_request _ = false

-- The configuration is written to the radio.
unfoldable pub is_config : Cmd → Bool
is_config mac_config = true
is_config _ = false

-- `t & 0xFFFFFFFFFE00UL`: bits 9 to 47 of a device time.
unfoldable pub mask_tx_time : ℕ → ℕ
mask_tx_time t = t % 2 ^ 48 / 2 ^ 9 * 2 ^ 9
