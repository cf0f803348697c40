-- ===== src/Listener/Print.antt =====
-- Printing in apps/listener/src/main.c: `process_rx_data_queue`. What it finds in a chain, and what
-- uwb_calc_rssi, uwb_calc_fppl, uwb_calc_pdoa and uwb_calc_clock_offset_ratio make of that, is a `Line`.
-- No call of `mprintf` comes near the size of its buffer.
pub mod Values
pub mod Document
use uwb_apps.Prelude.{
  true, ℕ, ◌+◌, ◌-◌, Bool, not, ◌&&◌, ◌||◌, List, [], ◌∷◌, ◌++◌, Option, none, some, take, ◌==◌,
  if◌then◌else◌,
}
use uwb_apps.Prelude.Int.{ℤ, abs_ℤ}
use uwb_apps.Float.{
  Float, FloatOps, f_10, f_100, f_1000, f_1000000, f_1000000000, f_minus_200, dotted, places,
}
use uwb_apps.Text.{Text, codes, dec, dec_ℤ, hex, pad, pad_ℤ}
use uwb_apps.Listener.Structs.{Msg, State}
use uwb_apps.Listener.Impulse.{Response, print_cir}
use uwb_apps.Json.Parts.{text_if, commas_before}

-- What is printed of one chain. `single_pdoa` is there if the radio has the capability
-- single_receiver_pdoa, and `pd` has an entry for each radio but one. `buffer` is `print_buffer`;
-- `responses` is what the copies of impulse responses leave in `tmp_cir`.
pub record Line : Type 0 where
  pub utime : ℕ
  pub ts : List ℕ
  pub rssi : List Float
  pub fppl : List Float
  pub carrier_integrator : ℤ
  pub clock_offset : Float
  pub single_pdoa : Option Float
  pub pd : List Float
  pub dlen : ℕ
  pub buffer : List ℕ
  pub responses : List Response

-- The bits VERBOSE_RX_DIAG, VERBOSE_CARRIER_INTEGRATOR and VERBOSE_NOT_TO_CONSOLE of the settings; the bit
-- VERBOSE_CIR, in a build with CIR_ENABLED; and whether samples are to load.
pub record Verbose : Type 0 where
  pub rx_diag : Bool
  pub carrier : Bool
  pub not_to_console : Bool
  pub cir : Bool
  pub samples : Bool

abbrev pub has_ccor : Verbose → Line → Bool
has_ccor v l = not (abs_ℤ l.carrier_integrator == 0) && v.carrier

-- The bytes of the frame.
abbrev pub bytes_text : List ℕ → Text
bytes_text [] = []
bytes_text (x ∷ xs) = pad 2 (hex x) ++ bytes_text xs

-- What comes of a chain beside its header: the return code of the first copy, whether there is a
-- buffer for the output, and what is read and calculated.
pub record Reads : Type 0 where
  pub copy_rc : ℕ
  pub has_buffer : Bool
  pub appends : Bool
  pub rssi : List Float
  pub fppl : List Float
  pub clock_offset : Float
  pub single_pdoa : Option Float
  pub buffer : List ℕ
  pub responses : List Response

abbrev pub line_of : Msg → Reads → Line
line_of m r = record {
  utime = m.utime;
  ts = m.ts;
  rssi = r.rssi;
  fppl = r.fppl;
  carrier_integrator = m.carrier_integrator;
  clock_offset = r.clock_offset;
  single_pdoa = r.single_pdoa;
  pd = m.pd;
  dlen = m.dlen;
  buffer = r.buffer;
  responses = r.responses;
}

-- The setting ETH_0, and what `mn_sendto` returns for a datagram.
pub record Net : Type 0 where
  pub eth : Bool
  pub send_rc : Text → ℤ

abbrev pub is_sent : Net → Text → Bool
is_sent net t = net.eth && (abs_ℤ (net.send_rc t) == 0)

-- The message where a datagram cannot be sent.
abbrev pub note : Net → Text → Text
note net t =
    if net.eth && not (is_sent net t)
    then codes "sendto: " ++ (dec_ℤ (net.send_rc t) ++ codes "\n")
    else []

-- `held` counts the chains of received frames, and `buffers` those for a line that were taken and neither
-- freed nor handed to the network.
abbrev pub take_line_buffer : State → State
take_line_buffer s = record s { buffers = s.buffers + 1 }

abbrev pub free_line_buffer : State → State
free_line_buffer s = record s { buffers = s.buffers - 1 }

abbrev pub hand_over : State → State
hand_over s = record s { buffers = s.buffers - 1 }

abbrev pub free_frame : State → State
free_frame s = record s { held = s.held - 1 }

module _ (ops : FloatOps) where
  abbrev pub in_range : Float → Bool
  in_range x = ops.less f_minus_200 x && ops.less x f_100

  -- An entry of `rssi` or `fppl`.
  abbrev pub level_text : Float → Text
  level_text x = if in_range x then dotted ops 1 f_10 x else codes "null"

  -- An entry of `pd`.
  abbrev pub pd_text : Float → Text
  pd_text x =
      if ops.is_nan x
      then codes "null"
      else (if ops.less x 0 then b'-' ∷ [] else [])
        ++ (dec (abs_ℤ (ops.to_int x)) ++ b'.' ∷ pad 3 (dec (places ops f_1000 x)))

  abbrev pub ppm : Line → ℤ
  ppm l = ops.to_int (ops.mul l.clock_offset f_1000000)

  -- The thousandths behind it.
  abbrev pub ppb : Line → ℤ
  ppb l = ops.round (
      ops.mul (ops.fabs (ops.sub l.clock_offset (ops.quotient (ops.of_int (ppm l)) f_1000000)))
        f_1000000000)

  abbrev pub single_text : Option Float → Text
  single_text none = []
  single_text (some x) = pd_text x

  pub print_diag : Verbose → Line → Text
  print_diag v l = text_if v.rx_diag (
      codes ",\"rssi\":["
      ++ (commas_before level_text 0 l.rssi
          ++ codes "],\"fppl\":["
          ++ (commas_before level_text 0 l.fppl ++ codes "]")))

  pub print_ccor : Verbose → Line → Text
  print_ccor v l =
      text_if (has_ccor v l)
        (codes ",\"ccor\":" ++ (dec_ℤ (ppm l) ++ b'.' ∷ (pad_ℤ 3 (ppb l) ++ codes "e-6")))

  pub print_pd : Line → Text
  print_pd l =
      codes ",\"pd\":["
      ++ (single_text l.single_pdoa ++ (commas_before pd_text 0 l.pd ++ codes "]"))

  -- The line of one chain, without the end of line.
  pub print_line : Verbose → Line → Text
  print_line v l =
      codes "{\"utime\":"
      ++ (dec l.utime
          ++ (codes ",\"ts\":["
              ++ (commas_before dec 0 l.ts
                  ++ codes "]"
                  ++ (print_diag v l
                      ++ (print_ccor v l
                          ++ (print_pd l
                              ++ (codes ",\"dlen\":"
                                  ++ (dec l.dlen
                                      ++ (codes ",\"d\":\""
                                          ++ (bytes_text (take l.dlen l.buffer)
                                              ++ (codes "\""
                                                  ++ (print_cir ops v.cir v.samples l.responses
                                                      ++ codes "}"))))))))))))

  -- What goes to the console of a line.
  abbrev pub console_text : Verbose → Line → Text
  console_text v l = if v.not_to_console then [] else print_line v l ++ codes "\n"

  -- The buffer of the line after the line is printed. With an Ethernet it goes out as a datagram, from a socket that the
  -- first turn opens: the stack takes it, or it is freed if it cannot be sent. Without one it is freed.
  unfoldable pub send_line : Net → Text → State → State × Text × List Text
  send_line net text s =
      if net.eth
      then (let s' = record s { has_socket = true } in
          if is_sent net text
          then (hand_over s', [], text ∷ [])
          else (free_line_buffer s', note net text, []))
      else (free_line_buffer s, [], [])

  -- One turn of the loop of `process_rx_data_queue`: the chain is freed, whether it is printed or
  -- not. The results are what goes to the console, and the datagrams; `none` is a failed assert of
  -- `mprintf`, where a part of the line cannot be appended to its buffer.
  unfoldable pub process_one :
      Net → Verbose → Msg → Reads → State → Option (State × Text × List Text)
  process_one net v m r s =
      if r.copy_rc == 0
      then (if r.has_buffer
          then (if r.appends
              then (let (s', noted, sent) =
                    send_line net (print_line v (line_of m r)) (take_line_buffer s) in
                  some (free_frame s', console_text v (line_of m r) ++ noted, sent))
              else none)
          else some (free_frame s, [], []))
      else some (free_frame s, [], [])

  unfoldable pub process_all :
      Net → (Msg → Reads) → Verbose → List Msg → State → Option (State × Text × List Text)
  process_all net reads v [] s = some (s, [], [])
  process_all net reads v (m ∷ ms) s = elim (process_one net v m (reads m) s) [
    | none ↦ none
    | some (s', out, sent) ↦ elim (process_all net reads v ms s') [
      | none ↦ none
      | some (s'', outs, sents) ↦ some (s'', out ++ outs, sent ++ sents)
    ]
  ]

  unfoldable pub process_rx_data_queue :
      Net → (Msg → Reads) → Verbose → State → Option (State × Text × List Text)
  process_rx_data_queue net reads v s = process_all net reads v s.queue (record s { queue = [] })
