-- ===== src/Backhaul/Fifo.antt =====
-- A bridge as a queue in first-in, first-out order: what it prints over a run of receptions and of
-- runs of its queue handler, against a description that has no queue.
use uwb_apps.Prelude.{
  ℕ, ◌+◌, ◌≡◌, ◌∙◌, sym, ap, refl, Bool, true, false, not, ◌&&◌, ◌||◌, List, [], ◌∷◌, ◌++◌, u32,
  ◌==◌, leb, if◌then◌else◌, arith, Bool-cases, inl, inr,
}
use Prim.Native.Nat.{min}
use mathlib.Core.List.{append-nil, append_assoc}
use uwb_apps.Backhaul.Packet.{
  Params, fcntl_ieee_rtdoabh, dwt_rtdoabh_code, sizeof_pkg, sizeof_sensor_data,
}
use uwb_apps.Backhaul.State.{
  Backhaul, Mbuf, Printed, dlen_field, bridge, process_one, process_all, process_rx_data_queue,
  shown,
}
use uwb_apps.Backhaul.Receive.{RxEnv, is_foreign, is_repeat, accept, rx_complete_cb}

-- What happens to a bridge: the radio delivers a frame, or the event queue runs the queue handler.
pub data Event : Type 0 where
  frame : RxEnv → Event
  console : Event

module _ (k : Params) (copies : Mbuf → Bool) where
  -- A run of the program, with what it prints.
  unfoldable pub run : List Event → Backhaul → Backhaul × List Printed
  run [] b = (b, [])
  run (frame e ∷ es) b = run es (rx_complete_cb k e b).0
  run (console ∷ es) b =
      let (b', out) = process_rx_data_queue k copies b in
      let (b'', rest) = run es b' in (b'', out ++ rest)

  -- The frame is a report for this device, and not the one that was taken before it.
  abbrev pub is_wanted : ℕ → ℕ → RxEnv → Bool
  is_wanted address seq_num e =
      (e.fctrl == fcntl_ieee_rtdoabh)
      && leb dwt_rtdoabh_code head.code
      && ((head.dst_address == e.my_short_address) || (head.dst_address == k.broadcast))
      && leb sizeof_sensor_data e.frame_len
      && not ((head.src_address == address) && (head.seq_num == seq_num))
    where
      open e.rxbuf use {head}

  -- The kernel had a buffer for it, and room in the queue.
  abbrev pub is_served : RxEnv → Bool
  is_served e = e.mbuf.alloc && (e.mbuf.copy_rc == 0) && (e.mbuf.put_rc == 0)

  abbrev pub queued : RxEnv → Mbuf
  queued e = record { dlen = dlen_field e.frame_len; body = e.rxbuf }

  -- The frames of a run that a bridge has to report, by the source and the number of the last one.
  unfoldable pub reported : ℕ → ℕ → List Event → List Mbuf
  reported address seq_num [] = []
  reported address seq_num (console ∷ es) = reported address seq_num es
  reported address seq_num (frame e ∷ es) =
      let same = reported address seq_num es in
      let next = reported e.rxbuf.head.src_address e.rxbuf.head.seq_num es in
      if is_wanted address seq_num e then (if is_served e then queued e ∷ next else next) else same

  -- The number after that of `m`, which is printed if its bytes can be copied.
  abbrev pub mid_after : ℕ → Mbuf → ℕ
  mid_after mid m = if copies m then u32 (mid + 1) else mid

  -- The line of `m`, if its bytes can be copied.
  abbrev pub line : ℕ → Mbuf → List Printed
  line mid m =
      if copies m
      then record { mid = mid; payload_len = min m.dlen (sizeof_pkg k); body = shown k m } ∷ []
      else []

  -- The lines of these frames, numbered from `mid`.
  unfoldable pub numbered : ℕ → List Mbuf → List Printed
  numbered mid [] = []
  numbered mid (m ∷ ms) = line mid m ++ numbered (mid_after mid m) ms

  mid_at : ℕ → List Mbuf → ℕ
  mid_at mid [] = mid
  mid_at mid (m ∷ ms) = mid_at (mid_after mid m) ms

  numbered-append :
      (mid : ℕ) (ms ns : List Mbuf)
      → numbered mid (ms ++ ns) ≡ numbered mid ms ++ numbered (mid_at mid ms) ns
  unfolding numbered mid_at
  numbered-append mid [] ns = refl
  numbered-append mid (m ∷ ms) ns =
      ap (◌++◌ (line mid m)) (numbered-append (mid_after mid m) ms ns)
      ∙ sym (append_assoc (line mid m) _ _)

  -- What the handler leaves alone at a bridge, and the number that it goes on to.
  abbrev Leaves : Backhaul → Backhaul → ℕ → Type 0
  Leaves b b' mid =
      (b'.role ≡ bridge)
      × (b'.last_address ≡ b.last_address)
      × (b'.last_seq_num ≡ b.last_seq_num)
      × (b'.queue ≡ b.queue)
      × (b'.msg_id ≡ mid)

  process_one_lem :
      (m : Mbuf) (b : Backhaul)
      → b.role ≡ bridge
      → Leaves b (process_one k copies m b).0 (mid_after b.msg_id m)
  unfolding process_one
  process_one_lem m b h = (ground arith, ground arith, ground arith, ground arith, ground arith)

  process_one-line :
      (m : Mbuf) (b : Backhaul) → b.role ≡ bridge → (process_one k copies m b).1 ≡ line b.msg_id m
  unfolding process_one
  process_one-line m b h = ground arith

  process_all_lem :
      (ms : List Mbuf) (b : Backhaul)
      → b.role ≡ bridge
      → Leaves b (process_all k copies ms b).0 (mid_at b.msg_id ms)
        × ((process_all k copies ms b).1 ≡ numbered b.msg_id ms)
  unfolding process_all numbered mid_at
  process_all_lem [] b h = ((h, refl, refl, refl, refl), refl)
  process_all_lem (m ∷ ms) b h =
      let b' = (process_one k copies m b).0 in
      let (role, address, seq_num, queue, mid) = process_one_lem m b h in
      let ((roles, addresses, seq_nums, queues, mids), out) = process_all_lem ms b' role in
      (
        (
          roles,
          addresses ∙ address,
          seq_nums ∙ seq_num,
          queues ∙ queue,
          mids ∙ ap (λ i. mid_at i ms) mid,
        ),
        ap (λ l. l ++ (process_all k copies ms b').1) (process_one-line m b h)
            ∙ ap (◌++◌ (line b.msg_id m)) (out ∙ ap (λ i. numbered i ms) mid),
      )

  -- What a run that ends with the handler prints.
  abbrev described : List Event → Backhaul → List Printed
  described es b = numbered b.msg_id (b.queue ++ reported b.last_address b.last_seq_num es)

  described-congr :
      (es : List Event) (b c : Backhaul)
      → c.last_address ≡ b.last_address
      → c.last_seq_num ≡ b.last_seq_num
      → c.msg_id ≡ b.msg_id
      → c.queue ≡ b.queue
      → described es c ≡ described es b
  described-congr es b c address seq_num mid queue =
      rw address (rw seq_num (rw mid (rw queue refl)))

  -- A frame that is not wanted changes nothing that a run depends on.
  skip :
      (e : RxEnv) (b : Backhaul)
      → b.role ≡ bridge
      → is_wanted b.last_address b.last_seq_num e ≡ false
      → Leaves b (rx_complete_cb k e b).0 b.msg_id
  unfolding rx_complete_cb is_foreign is_repeat
  skip e b role h = (ground arith, ground arith, ground arith, ground arith, ground arith)

  -- A frame that is wanted is noted, and queued if it is served.
  take :
      (e : RxEnv) (b : Backhaul)
      → b.role ≡ bridge
      → is_wanted b.last_address b.last_seq_num e ≡ true
      → let b' = (rx_complete_cb k e b).0 in
        (b'.role ≡ bridge)
        × (b'.last_address ≡ e.rxbuf.head.src_address)
        × (b'.last_seq_num ≡ e.rxbuf.head.seq_num)
        × (b'.queue ≡ (if is_served e then b.queue ++ queued e ∷ [] else b.queue))
        × (b'.msg_id ≡ b.msg_id)
  unfolding rx_complete_cb is_foreign is_repeat accept
  take e b role h = (ground arith, ground arith, ground arith, ground arith, ground arith)

  handler_lem :
      (b : Backhaul)
      → b.role ≡ bridge
      → Leaves
          (record b { queue = [] })
          (process_rx_data_queue k copies b).0
          (mid_at b.msg_id b.queue)
        × ((process_rx_data_queue k copies b).1 ≡ numbered b.msg_id b.queue)
  unfolding process_rx_data_queue
  handler_lem b h = process_all_lem b.queue (record b { queue = [] }) h

  described-take :
      (e : RxEnv) (es : List Event) (b : Backhaul)
      → b.role ≡ bridge
      → is_wanted b.last_address b.last_seq_num e ≡ true
      → described es (rx_complete_cb k e b).0 ≡ described (frame e ∷ es) b
  unfolding reported
  described-take e es b role h =
      let (_, address, seq_num, queue, mid) = take e b role h in
      rw h (
        rw address (
          rw seq_num (
            rw mid (
              rw queue (elim (Bool-cases (is_served e)) [
                | inl s ↦ rw s (ap (numbered b.msg_id) (append_assoc b.queue _ _))
                | inr s ↦ rw s refl
              ])))))

  -- A bridge prints the frames that it has to report, in the order of their arrival, each once, with
  -- consecutive numbers, after those that were queued before. This holds for every interleaving of
  -- receptions with runs of the queue handler, once the handler runs after the last of them, and
  -- whatever the kernel answers: a frame counts if there was room for it when it arrived, and its line
  -- and its number fall out if its bytes cannot be copied back.
  pub run-reported :
      (es : List Event) (b : Backhaul)
      → b.role ≡ bridge
      → (run (es ++ console ∷ []) b).1
        ≡ numbered b.msg_id (b.queue ++ reported b.last_address b.last_seq_num es)
  unfolding run reported
  run-reported [] b h =
      append-nil _ ∙ (handler_lem b h).1 ∙ ap (numbered b.msg_id) (sym (append-nil b.queue))
  run-reported (console ∷ es) b h =
      let b' = (process_rx_data_queue k copies b).0 in
      let ((role, address, seq_num, queue, mid), out) = handler_lem b h in
      let rest =
        run-reported es b' role
        ∙ described-congr es (record b { queue = []; msg_id = mid_at b.msg_id b.queue }) b' address
            seq_num mid queue in
      ap (λ l. l ++ (run (es ++ console ∷ []) b').1) out
      ∙ ap (◌++◌ (numbered b.msg_id b.queue)) rest
      ∙ sym (numbered-append b.msg_id b.queue _)
  run-reported (frame e ∷ es) b h =
      let b' = (rx_complete_cb k e b).0 in
      elim (Bool-cases (is_wanted b.last_address b.last_seq_num e)) [
        | inl w ↦ run-reported es b' (take e b h w).0 ∙ described-take e es b h w
        | inr w ↦
            let (role, address, seq_num, queue, mid) = skip e b h w in
            run-reported es b' role ∙ described-congr es b b' address seq_num mid queue ∙ rw w refl
      ]
