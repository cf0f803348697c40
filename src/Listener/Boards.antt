-- ===== src/Listener/Boards.antt =====
-- apps/listener in a build with PDOA_SPI: what becomes of the measurements of the boards.
use uwb_apps.Prelude.{◌&&◌, List, [], ◌∷◌, none, some, u16, ◌==◌, if◌then◌else◌}
use uwb_apps.Float.{f_1}
use uwb_apps.Text.{Text, codes}
use uwb_apps.Listener.Structs.{Board, Env, Msg}
use uwb_apps.Listener.Receive.{measure, message_of}
use uwb_apps.Listener.Print.{pd_text}

-- The message of a frame, if every radio or board has its part in it.
abbrev pub message : Env → List Msg
message e = elim (measure e (u16 e.frame_len)) [
  | none ↦ []
  | some (ws, ts, end) ↦ message_of e ws ts end ∷ []
]

-- What the line should tell of a board behind the first: null if its frame differs from that of the first
-- in checksum or length, or its leading edge is more than 1 away from that of the first radio.
abbrev pub phase_text : Env → Board → Board → Text
phase_text e first b =
    let gap = e.ops.sub (e.ops.roundf b.edge.fp_idx) (e.ops.roundf e.edge.fp_idx) in
    let steps = e.ops.of_int (e.ts_steps b.edge.raw_ts e.edge.raw_ts) in
    if (first.rxbuf_crc16 == b.rxbuf_crc16) && (first.rx_length == b.rx_length)
    then (if e.ops.less f_1 (e.ops.fabs (e.ops.add gap steps))
        then codes "null"
        else pd_text e.ops (if e.edge.valid && b.edge.valid then b.pdoa else 0))
    else codes "null"
