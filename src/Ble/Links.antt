-- ===== src/Ble/Links.antt =====
-- The links of the Bluetooth peripheral of lib/bleprph: what a run of events leaves.
use uwb_apps.Prelude.{
  ◌≡◌, refl, Bool, true, false, not, List, [], ◌∷◌, some, ◌==◌, if◌then◌else◌, arith,
}
use uwb_apps.Ble.{
  Call, infer_addr, AdvCodes, advertise, GapEvent, connect, disconnect, conn_update, adv_complete,
  enc_change, subscribe, mtu, other, gap_event, ble_is_connected,
}

-- A run of the GAP callback over events, until an assertion fails.
pub data Runs (c : AdvCodes) (before : Bool) : Bool → List GapEvent → Type 0 where
  start : Runs c before before []
  event :
      {now later : Bool} {es : List GapEvent} (e : GapEvent) (calls : List Call)
      → Runs c before now es
      → gap_event c e now ≡ some (later, calls)
      → Runs c before later (e ∷ es)

-- The link after events, newest first: the last successful connect or disconnect says whether it is
-- up.
abbrev pub link : Bool → List GapEvent → Bool
link before [] = before
link before (connect status find_rc ∷ es) = if status == 0 then true else link before es
link before (disconnect ∷ es) = false
link before (_ ∷ es) = link before es

abbrev pub begins_advertising : List Call → Bool
begins_advertising (infer_addr ∷ rest) = true
begins_advertising _ = false

-- The events after which the device must be visible again: a connection that failed or ended, and
-- an advertisement that ended.
abbrev pub ends_link : GapEvent → Bool
ends_link (connect status find_rc) = not (status == 0)
ends_link disconnect = true
ends_link adv_complete = true
ends_link _ = false

-- After any run of events, `ble_is_connected` tells whether the last successful connect or
-- disconnect was a connect.
pub is_connected_lem :
    (c : AdvCodes) {before now : Bool} {es : List GapEvent}
    → Runs c before now es
    → ble_is_connected true now ≡ (if link before es then 1 else 0)
unfolding ble_is_connected gap_event
is_connected_lem c start = refl
is_connected_lem c (event (connect status find_rc) calls r e) = ground (arith, is_connected_lem c r)
is_connected_lem c (event disconnect calls r e) = ground (arith, is_connected_lem c r)
is_connected_lem c (event (conn_update f) calls r e) = ground (arith, is_connected_lem c r)
is_connected_lem c (event adv_complete calls r e) = ground (arith, is_connected_lem c r)
is_connected_lem c (event (enc_change f) calls r e) = ground (arith, is_connected_lem c r)
is_connected_lem c (event subscribe calls r e) = ground (arith, is_connected_lem c r)
is_connected_lem c (event mtu calls r e) = ground (arith, is_connected_lem c r)
is_connected_lem c (event other calls r e) = ground (arith, is_connected_lem c r)

-- The callback starts to advertise again exactly when a connection failed or ended, or an
-- advertisement ended.
advertises_again :
    (c : AdvCodes) (e : GapEvent) (now later : Bool) (calls : List Call)
    → gap_event c e now ≡ some (later, calls)
    → begins_advertising calls ≡ ends_link e
unfolding gap_event advertise
advertises_again c (connect status find_rc) now later calls e = ground arith
advertises_again c disconnect now later calls e = ground arith
advertises_again c (conn_update f) now later calls e = ground arith
advertises_again c adv_complete now later calls e = ground arith
advertises_again c (enc_change f) now later calls e = ground arith
advertises_again c subscribe now later calls e = ground arith
advertises_again c mtu now later calls e = ground arith
advertises_again c other now later calls e = ground arith
