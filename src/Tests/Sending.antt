-- ===== src/Tests/Sending.antt =====
-- Examples for the sending side of lib/rtdoa_backhaul.
use uwb_apps.Prelude.{◌+◌, ◌*◌, ◌-◌, ◌≡◌, refl, arith, true, List, ◌∷◌, some}
use uwb_apps.Radio.{Cmd, set_delay_start, write_tx_fctrl, write_tx, start_tx}
use uwb_apps.Backhaul.Packet.{ResultsPkg, split_at, sizeof_range_data, initial_pkg}
use uwb_apps.Backhaul.State.{init, set_role}
use uwb_apps.Backhaul.Send.{send}
use uwb_apps.Backhaul.Send.Ranges.{counted, report}
use uwb_apps.Backhaul.Send.Packing.{IsReady, air_copy}
use uwb_apps.Backhaul.Pool.{IsBalanced, send-IsBalanced}
use uwb_apps.Backhaul.Sensors.{Reading}
use uwb_apps.Tests.Fixtures.{ops_ex, params_ex, bridge_ex, send_ex, frames_ex, calls_full}

IsReady-ex : IsReady params_ex send_ex bridge_ex
unfolding init set_role initial_pkg
IsReady-ex = record { slots = refl; few = omega arith; fits = omega arith; room = omega arith }

air_copy_example :
    (p : ResultsPkg) × ((send ops_ex params_ex send_ex 500 bridge_ex).2 ≡ some p)
    × (counted p ≡ report ops_ex frames_ex)
    × (p.num_ranges ≡ 1)
    × (p.sensors ≡ bridge_ex.pkg.sensors)
    × (p.ref_anchor_addr ≡ bridge_ex.pkg.ref_anchor_addr)
    × (let n = split_at params_ex + 1 + sizeof_range_data * 1 in
        (rest : List Cmd) × ((send ops_ex params_ex send_ex 500 bridge_ex).1
          ≡ write_tx 0 (split_at params_ex + 1)
            ∷ set_delay_start 500
            ∷ write_tx_fctrl n
            ∷ write_tx (split_at params_ex) (n - split_at params_ex)
            ∷ start_tx
            ∷ rest))
air_copy_example = air_copy ops_ex params_ex send_ex 500 bridge_ex IsReady-ex (omega arith)

send-IsBalanced_example :
    IsBalanced (send ops_ex params_ex (record send_ex { mbuf = calls_full }) 0 bridge_ex).0
unfolding init set_role
send-IsBalanced_example =
    send-IsBalanced ops_ex params_ex (record send_ex { mbuf = calls_full }) 0 bridge_ex refl

abbrev reading_ex : Reading
reading_ex = record { x = 1; y = 2; z = 3; x_is_valid = true; y_is_valid = true; z_is_valid = true }
