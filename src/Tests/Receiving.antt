-- ===== src/Tests/Receiving.antt =====
-- Examples for the receiving side of lib/rtdoa_backhaul and of apps/listener.
use uwb_apps.Prelude.{◌+◌, ◌≡◌, ◌≢◌, refl, arith, length}
use uwb_apps.Backhaul.State.{init}
use uwb_apps.Backhaul.Receive.{
  is_foreign, rx_complete_cb, RxEnv, tx_complete_cb, listen_pend, listen_arm, listen_release,
}
use uwb_apps.Backhaul.Wait.{
  System, idle, pended, armed, waiting, woken, released, start, sent, Idle-blocked,
}
use uwb_apps.Backhaul.Pool.{lost_chains, rx_complete_cb-held}
use uwb_apps.Backhaul.Repeats.{rx_twice-queue}
use uwb_apps.Tests.Fixtures.{params_ex, bridge_ex, rx_ex, calls_ok, calls_full}

rx_twice-queue_example :
    let b' = (rx_complete_cb params_ex rx_ex bridge_ex).0 in
    (rx_complete_cb params_ex (record rx_ex { rxtimestamp = 2000 }) b').0.queue ≡ b'.queue
rx_twice-queue_example = rx_twice-queue params_ex rx_ex 2000 calls_ok bridge_ex

rx_complete_cb-held_example :
    let e = record rx_ex { mbuf = calls_full } in
    let b' = (rx_complete_cb params_ex e bridge_ex).0 in
    b'.held + length bridge_ex.queue
    ≡ bridge_ex.held + length b'.queue + lost_chains params_ex e bridge_ex
rx_complete_cb-held_example =
    rx_complete_cb-held params_ex (record rx_ex { mbuf = calls_full }) bridge_ex

abbrev idle_ex : System
idle_ex = record { lib = init params_ex 7; phase = idle }

-- A frame that is too short.
abbrev short_ex : RxEnv
short_ex = record rx_ex { frame_len = 12 }

-- A listen: a transmission completes behind its first pend, and a short frame comes between its second
-- pend and the release.
abbrev pended_ex : System
pended_ex = record { lib = listen_pend idle_ex.lib; phase = pended }

abbrev completed_ex : System
completed_ex = record { lib = (tx_complete_cb 0x88C1 pended_ex.lib).0; phase = pended }

abbrev armed_ex : System
armed_ex = record { lib = listen_arm 65536 900 completed_ex.lib; phase = armed }

abbrev waiting_ex : System
waiting_ex = record { lib = armed_ex.lib; phase = waiting }

abbrev woken_ex : System
woken_ex = record { lib = listen_pend waiting_ex.lib; phase = woken }

abbrev received_ex : System
received_ex = record { lib = (rx_complete_cb params_ex short_ex woken_ex.lib).0; phase = woken }

abbrev released_ex : System
released_ex = record { lib = listen_release received_ex.lib; phase = released }

-- The semaphore counts 2 then.
counts_two : released_ex.lib.sem ≡ 2
unfolding init listen_pend listen_arm listen_release tx_complete_cb rx_complete_cb is_foreign
counts_two = refl

-- A listen waits.
abbrev listening_ex : System
listening_ex = record { lib = listen_arm 65536 900 (listen_pend idle_ex.lib); phase = waiting }

-- A transmission completes while the thread listens.
abbrev sent_ex : System
sent_ex = record { lib = (tx_complete_cb 0x88C1 listening_ex.lib).0; phase = waiting }

Idle-blocked_example :
    (sent_ex.lib.sem ≡ 0) × (sent_ex.lib.to_dx_time ≢ 0) × (sent_ex.phase ≡ waiting)
unfolding init listen_pend listen_arm
Idle-blocked_example =
    Idle-blocked params_ex {s = listening_ex} {t = sent_ex} refl (omega arith)
      (sent start 0x88C1 refl refl)
