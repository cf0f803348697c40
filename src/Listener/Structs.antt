-- ===== src/Listener/Structs.antt =====
-- The structures of apps/listener/src/main.c, and what its callbacks learn from the radios, the boards
-- and the kernel.
use uwb_apps.Prelude.{ℕ, Bool, List, Option}
use uwb_apps.Prelude.Int.{ℤ}
use uwb_apps.Float.{Float, FloatOps}

-- What is written into a chain, at an offset: the frame, the diagnostics of a radio, the impulse
-- response of a radio.
pub data Part : Type 0 where
  frame : Part
  diag : ℕ → Part
  cir : ℕ → Part

pub record Write : Type 0 where
  pub part : Part
  pub offset : ℕ
  pub size : ℕ

-- What a radio measures of a frame, as the driver keeps it.
abbrev pub Diag : Type 0
Diag = ℕ

-- `struct uwb_msg_hdr` of a queued chain, and the writes into the chain in order. `diags` is empty
-- without the boards; `pd` has an entry for each radio or board but the first.
pub record Msg : Type 0 where
  pub utime : ℕ
  pub dlen : ℕ
  pub diag_offset : ℕ
  pub cir_offset : ℕ
  pub carrier_integrator : ℤ
  pub ts : List ℕ
  pub diags : List Diag
  pub pd : List Float
  pub writes : List Write

-- The chains taken from the pool and not freed, the queue, the buffers taken for output and neither
-- freed nor handed over, and whether the socket is open.
pub record State : Type 0 where
  pub held : ℕ
  pub queue : List Msg
  pub buffers : ℕ
  pub has_socket : Bool

-- What one radio adds to a message: the length of its diagnostics, the return code of the copy, its
-- time stamp and whether it is in error.
pub record RadioDiag : Type 0 where
  pub rxd_len : ℕ
  pub copy_rc : ℕ
  pub rxtimestamp : ℕ
  pub lde_error : Bool

-- An impulse response: `status.valid`, and where its leading edge lies.
pub record Edge : Type 0 where
  pub valid : Bool
  pub raw_ts : ℤ
  pub fp_idx : Float

-- What a board measured, `struct pdoa_cir_data`. `pdoa` is what `cir_get_pdoa` answers for it and
-- the first radio.
pub record Board : Type 0 where
  pub rxbuf_crc16 : ℕ
  pub rx_length : ℕ
  pub rxdiag : Diag
  pub ts : ℕ
  pub edge : Edge
  pub pdoa : Float

-- The settings: the arithmetic, two radios, CIR_ENABLED, `acc_samples_to_load`, the size of an
-- impulse response, and DPL_TICKS_PER_SEC. The rest is what the radios, the boards in a build with
-- PDOA_SPI, and the kernel answer. `ts_steps` is the difference of two values of `raw_ts`, divided by 64
-- in their type, as an `int`.
pub record Env : Type 0 where
  pub ops : FloatOps
  pub dual : Bool
  pub cir_enabled : Bool
  pub acc_samples : ℕ
  pub cir_size : ℕ
  pub ticks_per_sec : ℕ
  pub is_last : Bool
  pub rx_restarted : Bool
  pub same_data : Bool
  pub utime : ℕ
  pub frame_len : ℕ
  pub carrier_integrator : ℤ
  pub alloc : Bool
  pub frame_rc : ℕ
  pub radios : List RadioDiag
  pub boards : Option (List Board)
  pub edge : Edge
  pub ts_steps : ℤ → ℤ → ℤ
  pub both_valid : Bool
  pub pdoa : Float
  pub put_rc : ℕ
