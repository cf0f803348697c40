-- ===== src/Backhaul/Wait.antt =====
-- The semaphore of lib/rtdoa_backhaul: one thread calls `rtdoa_backhaul_listen`, while the radio's
-- callbacks come at any time.
use uwb_apps.Prelude.{
  ℕ, ◌≤◌, ◌≡◌, ◌≢◌, refl, Bool, false, not, ◌&&◌, ◌||◌, leb, ◌==◌, if◌then◌else◌, arith,
}
use uwb_apps.Backhaul.Packet.{Params, fcntl_ieee_rtdoabh, dwt_rtdoabh_code, sizeof_sensor_data}
use uwb_apps.Backhaul.State.{Backhaul}
use uwb_apps.Backhaul.Receive.{
  RxEnv, is_foreign, is_repeat, accept, rx_complete_cb, tx_complete_cb, listen_pend, listen_arm,
  listen_release, inc_rx_error, listen_clear,
}

-- Where the thread stands in `rtdoa_backhaul_listen`: outside; behind the first `os_sem_pend`; with the
-- end of the listen noted; where the radio did not start, before the release, and before the error is counted; at the second
-- `os_sem_pend`; behind it; and behind the release.
pub data Phase : Type 0 where
  idle pended armed failed uncounted waiting woken released : Phase

pub record System : Type 0 where
  pub lib : Backhaul
  pub phase : Phase

-- A pend passes where the semaphore is not 0. A callback may come between any two steps of the thread.
pub data Step (k : Params) (s t : System) : Type 0 where
  pend : s.phase ≡ idle → s.lib.sem ≢ 0 → t.lib ≡ listen_pend s.lib → t.phase ≡ pended → Step k s t
  arm :
      (dx_time timeout_uus : ℕ)
      → s.phase ≡ pended
      → t.lib ≡ listen_arm dx_time timeout_uus s.lib
      → t.phase ≡ armed
      → Step k s t
  start_rx :
      (start_rx_error : Bool)
      → s.phase ≡ armed
      → t.lib ≡ s.lib
      → t.phase ≡ (if start_rx_error then failed else waiting)
      → Step k s t
  give_up : s.phase ≡ failed → t.lib ≡ listen_release s.lib → t.phase ≡ uncounted → Step k s t
  count : s.phase ≡ uncounted → t.lib ≡ inc_rx_error s.lib → t.phase ≡ waiting → Step k s t
  wake :
      s.phase ≡ waiting → s.lib.sem ≢ 0 → t.lib ≡ listen_pend s.lib → t.phase ≡ woken → Step k s t
  release : s.phase ≡ woken → t.lib ≡ listen_release s.lib → t.phase ≡ released → Step k s t
  finish : s.phase ≡ released → t.lib ≡ listen_clear s.lib → t.phase ≡ idle → Step k s t
  receive : (e : RxEnv) → t.lib ≡ (rx_complete_cb k e s.lib).0 → t.phase ≡ s.phase → Step k s t
  transmitted :
      (fctrl : ℕ) → t.lib ≡ (tx_complete_cb fctrl s.lib).0 → t.phase ≡ s.phase → Step k s t

pub data Reach (k : Params) (s : System) : System → Type 0 where
  here : Reach k s s
  next : {t u : System} → Reach k s t → Step k t u → Reach k s u

-- The highest count of the semaphore at each point of a listen, and the lowest.
abbrev pub most : Phase → ℕ
most idle = 2
most pended = 1
most armed = 1
most failed = 1
most uncounted = 2
most waiting = 2
most woken = 1
most released = 2

abbrev pub least : Phase → ℕ
least idle = 1
least uncounted = 1
least released = 1
least _ = 0

-- The count is in these bounds, and between two listens no timeout is kept.
pub record IsSound (s : System) : Type 0 where
  pub upper : s.lib.sem ≤ most s.phase
  pub lower : least s.phase ≤ s.lib.sem
  pub free : s.phase ≡ idle → s.lib.to_dx_time ≡ 0

-- The received frames that release the semaphore: those of the library's type that are not for this
-- device, are too short, or are new and find no buffer or are queued. A frame that repeats the last
-- one does not, and neither does a new frame whose copy or put fails.
abbrev pub wakes : Params → RxEnv → Backhaul → Bool
wakes k e b =
    (e.fctrl == fcntl_ieee_rtdoabh)
    && leb dwt_rtdoabh_code e.rxbuf.head.code
    && (is_foreign k e b.role
        || not (leb sizeof_sensor_data e.frame_len)
        || (not (is_repeat e b)
            && (not e.mbuf.alloc || ((e.mbuf.copy_rc == 0) && (e.mbuf.put_rc == 0)))))

-- `rx_complete_cb` releases the semaphore, if it is taken, exactly for the frames of `wakes`: those of
-- the library that are for another device or role, too short, or new and either queued or dropped for
-- want of a buffer. It never changes the timeout that the listen keeps.
rx_complete_cb-sem :
    (k : Params) (e : RxEnv) (b : Backhaul)
    → let b' = (rx_complete_cb k e b).0 in
      (b'.sem ≡ (if wakes k e b && (b.sem == 0) then 1 else b.sem)) × (b'.to_dx_time ≡ b.to_dx_time)
unfolding rx_complete_cb accept
rx_complete_cb-sem k e b = (ground arith, ground arith)

-- While a listen has a timeout, no transmission that completes releases the semaphore.
pub tx_complete_cb-sem :
    (fctrl : ℕ) (b : Backhaul)
    → let b' = (tx_complete_cb fctrl b).0 in
      (b'.sem ≡ (
        if (fctrl == fcntl_ieee_rtdoabh) && (b.to_dx_time == 0) && (b.sem == 0) then 1 else b.sem))
      × (b'.to_dx_time ≡ b.to_dx_time)
unfolding tx_complete_cb
tx_complete_cb-sem fctrl b = (ground arith, ground arith)

-- Every step keeps the invariant.
pub Step-IsSound : (k : Params) {s t : System} → Step k s t → IsSound s → IsSound t
unfolding listen_pend listen_arm listen_release inc_rx_error listen_clear
Step-IsSound k (pend before on e p) h = ground arith
Step-IsSound k (arm dx u before e p) h = ground arith
Step-IsSound k (start_rx err before e p) h = ground arith
Step-IsSound k (give_up before e p) h = ground arith
Step-IsSound k (count before e p) h = ground arith
Step-IsSound k (wake before on e p) h = ground arith
Step-IsSound k (release before e p) h = ground arith
Step-IsSound k (finish before e p) h = ground arith
Step-IsSound k {s} (receive e eq p) h = ground (arith, rx_complete_cb-sem k e s.lib)
Step-IsSound k {s} (transmitted f eq p) h = ground (arith, tx_complete_cb-sem f s.lib)

-- A frame that the library takes for a repeat, or drops for a failed copy or put, or a completed
-- transmission: none of them wakes a listen with a timeout, however many come.
pub data Idle (k : Params) (s : System) : System → Type 0 where
  start : Idle k s s
  repeat :
      {t u : System}
      → Idle k s t
      → (e : RxEnv) → wakes k e t.lib ≡ false
      → t.phase ≡ waiting
      → u.lib ≡ (rx_complete_cb k e t.lib).0
      → u.phase ≡ t.phase
      → Idle k s u
  sent :
      {t u : System}
      → Idle k s t
      → (fctrl : ℕ) → u.lib ≡ (tx_complete_cb fctrl t.lib).0
      → u.phase ≡ t.phase
      → Idle k s u

-- While a listen with a timeout is blocked, frames that the library takes for repeats, frames whose
-- copy or put fails and completed transmissions leave it blocked, however many come: the semaphore
-- stays 0, so that the pend does not pass, and the timeout stays set.
pub Idle-blocked :
    (k : Params) {s t : System}
    → s.lib.sem ≡ 0
    → s.lib.to_dx_time ≢ 0
    → Idle k s t
    → (t.lib.sem ≡ 0) × (t.lib.to_dx_time ≢ 0) × (t.phase ≡ s.phase)
Idle-blocked k z d start = (z, d, refl)
Idle-blocked k z d (repeat {t} i e quiet w eq keep) =
    ground (arith, Idle-blocked k z d i, rx_complete_cb-sem k e t.lib)
Idle-blocked k z d (sent {t} i f eq keep) =
    ground (arith, Idle-blocked k z d i, tx_complete_cb-sem f t.lib)
