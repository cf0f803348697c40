-- ===== src/Tests/Links.antt =====
-- Examples for lib/bleprph.
use uwb_apps.Prelude.{arith, take, drop, ◌≡◌, refl, true, false, [], ◌∷◌}
use uwb_apps.Ble.{conn_find, AdvCodes, connect, gap_event, ble_is_connected, ble_name}
use uwb_apps.Ble.Name.{read_hex, read-ble_name}
use uwb_apps.Text.{codes}
use uwb_apps.Ble.Links.{Runs, start, event, is_connected_lem}

abbrev codes_ex : AdvCodes
codes_ex = record { device_name = []; infer_rc = 0; fields_rc = 0; start_rc = 0 }

-- A connection that comes up.
Runs-ex : Runs codes_ex false true (connect 0 0 ∷ [])
unfolding gap_event
Runs-ex = event (connect 0 0) (conn_find ∷ []) start refl

is_connected_lem_example : ble_is_connected true true ≡ 1
is_connected_lem_example = is_connected_lem codes_ex Runs-ex

read-ble_name_example :
    let name = ble_name (codes "twr-tag") 0x1_0000_2345 in
    (take 8 name ≡ codes "twr-tag-") × (read_hex (drop 8 name) ≡ 0x2345)
read-ble_name_example = read-ble_name (codes "twr-tag") 0x1_0000_2345 (omega arith)
