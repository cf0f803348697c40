-- ===== src/Listener/Receive.antt =====
-- Reception in apps/listener/src/main.c, for one or two radios, with or without the PDOA_SPI boards:
-- `rx_complete_cb`, which queues a frame with what was measured, the callbacks that restart the
-- receivers, and the offsets at which `process_rx_data_queue` reads a queued chain. A call is paired
-- with the number of the radio that it goes to.
use uwb_apps.Prelude.{
  ℕ, zero, suc, ◌+◌, ◌-◌, ◌*◌, ◌/◌, Bool, true, not, ◌&&◌, List, [], ◌∷◌, ◌++◌, length, map,
  replicate, Option, none, some, u16, ltb, ◌==◌, if◌then◌else◌,
}
use uwb_apps.Float.{Float, f_1}
use uwb_apps.Listener.Structs.{frame, diag, cir, Write, Msg, State, RadioDiag, Board, Env}
use uwb_apps.Radio.{Cmd, set_rx_timeout, set_rxauto_disable, start_rx, callout_reset, callout_stop}

-- The restart of both receivers under CIR_ENABLED.
abbrev pub restart : ℕ → ℕ → List (ℕ × Cmd)
restart n timeout = (n, set_rx_timeout timeout) ∷ (n, set_rxauto_disable true) ∷ (n, start_rx) ∷ []

-- The loop over the radios: their diagnostics one after the other from `offset`; `none` where a copy
-- fails. The results are the writes, the time stamps and the offset behind them.
unfoldable pub diag_loop : ℕ → ℕ → List RadioDiag → Option (List Write × List ℕ × ℕ)
diag_loop i offset [] = some ([], [], offset)
diag_loop i offset (r ∷ rs) =
    let rest = diag_loop (suc i) (u16 (offset + r.rxd_len)) rs in
    if r.copy_rc == 0
    then elim rest [
      | none ↦ none
      | some (ws, ts, end) ↦ some (
        record { part = diag i; offset = offset; size = r.rxd_len } ∷ ws,
        (if r.lde_error then 0 else r.rxtimestamp) ∷ ts,
        end,
      )
    ]
    else none

-- The loop that loads the accumulators: impulse response `i` goes to `dlen + i*sizeof(*src)`.
unfoldable pub cir_loop : ℕ → ℕ → ℕ → ℕ → List Write
cir_loop zero i dlen size = []
cir_loop (suc r) i dlen size =
    record { part = cir i; offset = dlen + i * size; size = size } ∷ cir_loop r (suc i) dlen size

abbrev pub radio_count : Env → ℕ
radio_count e = if e.dual then 2 else 1

-- The number of impulse responses, PDOA_SPI_NUM_INSTANCES or N_DW_INSTANCES.
abbrev pub instances : Env → ℕ
instances e = elim e.boards [ none ↦ radio_count e | some bs ↦ length bs ]

-- The board heard the frame of the first one.
abbrev pub is_same_frame : Board → Board → Bool
is_same_frame first b = (first.rxbuf_crc16 == b.rxbuf_crc16) && (first.rx_length == b.rx_length)

-- Its leading edge is not that of the first radio.
abbrev pub is_other_edge : Env → Board → Bool
is_other_edge e b =
    let gap = e.ops.sub (e.ops.roundf b.edge.fp_idx) (e.ops.roundf e.edge.fp_idx) in
    let steps = e.ops.of_int (e.ts_steps b.edge.raw_ts e.edge.raw_ts) in
    e.ops.less f_1 (e.ops.fabs (e.ops.add gap steps))

-- One turn of the loop over the boards behind the first; the header was cleared before.
unfoldable pub board_phase : Env → Board → Board → Float
board_phase e first b =
    if not (is_same_frame first b)
    then e.ops.nan
    else if is_other_edge e b
    then e.ops.nan
    else if e.edge.valid && b.edge.valid
    then b.pdoa
    else 0

abbrev pub board_phases : Env → List Board → List Float
board_phases e [] = []
board_phases e (first ∷ bs) = map (board_phase e first) bs

-- `pd` of a message.
abbrev pub phases : Env → List Float
phases e =
    if e.cir_enabled
    then elim e.boards [
      | none ↦ if e.dual then (if e.both_valid then e.pdoa else 0) ∷ [] else []
      | some bs ↦ board_phases e bs
    ]
    else replicate (instances e - 1) 0

-- The diagnostics behind a frame that ends at `at`, and the time stamps. Those of boards go to the
-- header and not into the chain.
unfoldable pub measure : Env → ℕ → Option (List Write × List ℕ × ℕ)
measure e at = elim e.boards [
  | none ↦ diag_loop 0 at e.radios
  | some bs ↦ some ([], map (λ b. b.ts) bs, at)
]

-- The message of a frame whose parts are all copied, from what `measure` gives.
unfoldable pub message_of : Env → List Write → List ℕ → ℕ → Msg
unfolding cir_loop
message_of e ws ts end = record {
  utime = e.utime;
  dlen = u16 e.frame_len;
  diag_offset = u16 e.frame_len;
  cir_offset = if e.cir_enabled then end else 0;
  carrier_integrator = e.carrier_integrator;
  ts = ts;
  diags = elim e.boards [ none ↦ [] | some bs ↦ map (λ b. b.rxdiag) bs ];
  pd = phases e;
  writes =
      record { part = frame; offset = 0; size = u16 e.frame_len }
      ∷ (ws
          ++ (if e.cir_enabled && ltb 0 e.acc_samples
              then cir_loop (instances e) 0 (u16 e.frame_len) e.cir_size
              else []));
}

-- The end of `rx_complete_cb`, once a chain is had. A chain that cannot be filled is freed; one that
-- cannot be queued is not.
unfoldable pub fill_and_queue : Env → State → State
unfolding message_of
fill_and_queue e s =
    if e.frame_rc == 0
    then elim (measure e (u16 e.frame_len)) [
      | none ↦ s
      | some (ws, ts, end) ↦
          if e.put_rc == 0
          then record s { held = s.held + 1; queue = s.queue ++ message_of e ws ts end ∷ [] }
          else record s { held = s.held + 1 }
    ]
    else s

-- `rx_complete_cb`
unfoldable pub rx_complete_cb : Env → State → State × List (ℕ × Cmd) × Bool
rx_complete_cb e s =
    let restarts =
      if e.dual && e.cir_enabled
      then (0, callout_stop) ∷ (restart 0 0xffff ++ restart 1 0xffff)
      else [] in
    if e.dual && not e.is_last
    then (
      s,
      if not e.rx_restarted then (0, callout_reset (e.ticks_per_sec / 100)) ∷ [] else [],
      true,
    )
    else if e.dual && not e.same_data
    then (s, restarts, true)
    else if e.alloc
    then (fill_and_queue e s, restarts, true)
    else (s, restarts, true)

-- The loop of `timeout_cb`: every receiver starts again, without a timeout.
unfoldable pub restart_all : Bool → Bool → List (ℕ × Cmd)
restart_all dual cir_enabled =
    if dual
    then (0, set_rx_timeout 0)
      ∷ (0, set_rxauto_disable cir_enabled)
      ∷ (0, start_rx)
      ∷ (1, set_rx_timeout 0)
      ∷ (1, set_rxauto_disable cir_enabled)
      ∷ (1, start_rx)
      ∷ []
    else (0, set_rx_timeout 0) ∷ (0, start_rx) ∷ []

-- `timeout_cb`
unfoldable pub timeout_cb : Bool → Bool → List (ℕ × Cmd) × Bool
timeout_cb dual cir_enabled = (restart_all dual cir_enabled, true)

-- `rx_reenable_ev_cb`
abbrev pub rx_reenable_ev_cb : Bool → Bool → List (ℕ × Cmd)
rx_reenable_ev_cb dual cir_enabled = restart_all dual cir_enabled

-- The offset at which `process_rx_data_queue` first reads the diagnostics of a chain.
unfoldable pub diag_read_offset : Msg → ℕ
diag_read_offset m = m.dlen + m.diag_offset

-- The offset at which it reads impulse response `j`.
unfoldable pub cir_read_offset : ℕ → ℕ → Msg → ℕ
cir_read_offset size j m = m.dlen + j * size
