-- ===== src/Backhaul/Receive.antt =====
-- Receiving in lib/rtdoa_backhaul/src/rtdoa_backhaul.c: the callbacks `rx_complete_cb` and
-- `tx_complete_cb`, and `rtdoa_backhaul_listen`, which waits on the semaphore that they release.
use uwb_apps.Prelude.{
  ℕ, ◌+◌, ◌*◌, ◌-◌, ◌/◌, ◌^◌, Bool, true, false, not, ◌&&◌, ◌||◌, List, [], ◌∷◌, u16, u32, u64,
  sub_u64, ltb, leb, ◌==◌, if◌then◌else◌,
}
use uwb_apps.Radio.{Cmd, set_delay_start, set_rx_timeout, start_rx}
use uwb_apps.Backhaul.Packet.{
  Params, ResultsPkg, fcntl_ieee_rtdoabh, dwt_rtdoabh_code, sizeof_sensor_data,
}
use uwb_apps.Backhaul.State.{
  Backhaul, Role, invalid, bridge, producer, MbufCalls, dlen_field, take_mbuf, put,
  release_if_taken,
}

-- What the device hands to `rx_complete_cb`: `rxbuf` as a results packet, and what the kernel
-- answers if the callback queues it.
pub record RxEnv : Type 0 where
  pub fctrl : ℕ
  pub rxtimestamp : ℕ
  pub my_short_address : ℕ
  pub frame_len : ℕ
  pub rxbuf : ResultsPkg
  pub mbuf : MbufCalls

-- The frame is for another device, or this device does not collect packets.
unfoldable pub is_foreign : Params → RxEnv → Role → Bool
is_foreign k e r =
    (not (dst == e.my_short_address) && not (dst == k.broadcast))
    || (elim r [ invalid ↦ true | bridge ↦ false | producer ↦ true ])
  where
    dst : ℕ
    dst = e.rxbuf.head.dst_address

-- Source and sequence number are those of the last packet that was taken.
unfoldable pub is_repeat : RxEnv → Backhaul → Bool
is_repeat e b =
    (e.rxbuf.head.src_address == b.last_address) && (e.rxbuf.head.seq_num == b.last_seq_num)

inc_rx_drop : Backhaul → Backhaul
inc_rx_drop b = record b { stats = record s { rx_drop = u32 (s.rx_drop + 1) } }
  where
    open b use {stats as s}

-- A new packet is noted, counted and queued. Where a copy or a put fails, the callback returns at
-- once: the chain is not freed, and the semaphore is not released.
unfoldable pub accept : RxEnv → Backhaul → Backhaul
unfolding inc_rx_drop
accept e b =
    let s = b.stats in
    let noted = record b {
      last_address = e.rxbuf.head.src_address;
      last_seq_num = e.rxbuf.head.seq_num;
      stats = record s { rx_ok = u32 (s.rx_ok + 1) };
    } in
    let t = take_mbuf noted in
    if e.mbuf.alloc
    then (if e.mbuf.copy_rc == 0
        then (if e.mbuf.put_rc == 0
            then release_if_taken (put t (dlen_field e.frame_len) e.rxbuf)
            else t)
        else t)
    else release_if_taken (inc_rx_drop noted)

-- The receive timeout while a listen is under way: what is left of it, in microseconds.
unfoldable pub remaining_timeout : ℕ → ℕ → ℕ
remaining_timeout to_dx rxtimestamp = u16 (sub_u64 to_dx rxtimestamp / 2 ^ 16)

-- `rx_complete_cb`, with the radio calls and the Boolean that it returns.
unfoldable pub rx_complete_cb : Params → RxEnv → Backhaul → Backhaul × List Cmd × Bool
unfolding inc_rx_drop
rx_complete_cb k e b =
    let cmds =
      if b.to_dx_time == 0
      then []
      else set_rx_timeout (remaining_timeout b.to_dx_time e.rxtimestamp) ∷ [] in
    if not (e.fctrl == fcntl_ieee_rtdoabh)
    then (b, cmds, false)
    else if ltb e.rxbuf.head.code dwt_rtdoabh_code
    then (b, cmds, false)
    else if is_foreign k e b.role
    then (release_if_taken b, cmds, true)
    else if leb sizeof_sensor_data e.frame_len
    then (if is_repeat e b then (inc_rx_drop b, cmds, true) else (accept e b, cmds, true))
    else (release_if_taken b, cmds, true)

-- `tx_complete_cb`
unfoldable pub tx_complete_cb : ℕ → Backhaul → Backhaul × Bool
tx_complete_cb fctrl b =
    if not (fctrl == fcntl_ieee_rtdoabh)
    then (b, false)
    else if b.to_dx_time == 0
    then (release_if_taken b, true)
    else (b, false)

-- `rtdoa_backhaul_listen`, piece by piece, since a callback may come between any two of them. Both
-- `os_sem_pend`, which pass where the count is not 0:
unfoldable pub listen_pend : Backhaul → Backhaul
listen_pend b = record b { sem = b.sem - 1 }

-- the time at which the listen ends,
unfoldable pub listen_arm : ℕ → ℕ → Backhaul → Backhaul
listen_arm dx_time timeout_uus b = record b { to_dx_time = u64 (dx_time + timeout_uus * 2 ^ 16) }

-- the calls of the radio,
abbrev pub listen_calls : ℕ → ℕ → List Cmd
listen_calls dx_time timeout_uus =
    set_delay_start dx_time ∷ set_rx_timeout timeout_uus ∷ start_rx ∷ []

-- both `os_sem_release`, the first of them only if the radio does not start,
unfoldable pub listen_release : Backhaul → Backhaul
listen_release b = record b { sem = b.sem + 1 }

-- its count of the error,
unfoldable pub inc_rx_error : Backhaul → Backhaul
inc_rx_error b =
    let s = b.stats in record b { stats = record s { rx_error = u32 (s.rx_error + 1) } }

-- and the end.
unfoldable pub listen_clear : Backhaul → Backhaul
listen_clear b = record b { to_dx_time = 0 }
