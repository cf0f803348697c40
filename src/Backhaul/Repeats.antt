-- ===== src/Backhaul/Repeats.antt =====
-- The filter for repeated packets of `rx_complete_cb`, and the way of a packet from the radio to the
-- console of a bridge.
use uwb_apps.Prelude.{
  ℕ, ◌%◌, ◌^◌, ◌≡◌, ◌∙◌, sym, ap, refl, Bool, true, false, List, [], ◌∷◌, ◌++◌, arith, Bool-cases,
  inl, inr,
}
use Prim.Native.Nat.{min}
use mathlib.Core.List.{append-nil, append_assoc}
use uwb_apps.Backhaul.Packet.{Params, sizeof_pkg}
use uwb_apps.Backhaul.State.{
  Backhaul, Mbuf, dlen_field, MbufCalls, Printed, bridge, process_one, process_all,
  process_rx_data_queue, shown,
}
use uwb_apps.Backhaul.Receive.{RxEnv, is_foreign, is_repeat, accept, rx_complete_cb}
use uwb_apps.Backhaul.Pool.{is_accepted}

-- `rx_complete_cb` adds to the queue only what it accepts.
pub rx_complete_cb-queue :
    (k : Params) (e : RxEnv) (b : Backhaul)
    → is_accepted k e b ≡ false
    → (rx_complete_cb k e b).0.queue ≡ b.queue
unfolding rx_complete_cb
rx_complete_cb-queue k e b h = ground arith

rx_complete_cb-accept :
    (k : Params) (e : RxEnv) (b : Backhaul)
    → is_accepted k e b ≡ true
    → (rx_complete_cb k e b).0 ≡ accept e b
unfolding rx_complete_cb
rx_complete_cb-accept k e b h = ground arith

accept-noted :
    (e : RxEnv) (b : Backhaul)
    → ((accept e b).last_address ≡ e.rxbuf.head.src_address)
      × ((accept e b).last_seq_num ≡ e.rxbuf.head.seq_num)
unfolding accept
accept-noted e b = (ground arith, ground arith)

-- A frame that is not accepted leaves what acceptance depends on.
rx_complete_cb-skip :
    (k : Params) (e : RxEnv) (b : Backhaul)
    → is_accepted k e b ≡ false
    → let b' = (rx_complete_cb k e b).0 in
      (b'.role ≡ b.role) × (b'.last_address ≡ b.last_address) × (b'.last_seq_num ≡ b.last_seq_num)
unfolding rx_complete_cb
rx_complete_cb-skip k e b h = (ground arith, ground arith, ground arith)

is_accepted-repeat :
    (k : Params) (e : RxEnv) (b : Backhaul)
    → b.last_address ≡ e.rxbuf.head.src_address
    → b.last_seq_num ≡ e.rxbuf.head.seq_num
    → is_accepted k e b ≡ false
unfolding is_repeat
is_accepted-repeat k e b address seq_num = ground arith

-- Acceptance depends on the frame, the role and the last packet taken.
is_accepted-congr :
    (k : Params) (e : RxEnv) (later : ℕ) (m : MbufCalls) (b c : Backhaul)
    → c.role ≡ b.role
    → c.last_address ≡ b.last_address
    → c.last_seq_num ≡ b.last_seq_num
    → is_accepted k (record e { rxtimestamp = later; mbuf = m }) c ≡ is_accepted k e b
unfolding is_repeat is_foreign
is_accepted-congr k e later m b c role address seq_num = rw role (rw address (rw seq_num refl))

-- A frame is queued at most once: when the same frame comes again at once, at another time and
-- whatever the kernel answers, the queue stays as it is.
pub rx_twice-queue :
    (k : Params) (e : RxEnv) (later : ℕ) (m : MbufCalls) (b : Backhaul)
    → let b' = (rx_complete_cb k e b).0 in
      (rx_complete_cb k (record e { rxtimestamp = later; mbuf = m }) b').0.queue ≡ b'.queue
rx_twice-queue k e later m b =
    let b' = (rx_complete_cb k e b).0 in
    let again : RxEnv = record e { rxtimestamp = later; mbuf = m } in
    rx_complete_cb-queue k again b' (elim (Bool-cases (is_accepted k e b)) [
      | inl taken ↦
          let same = rx_complete_cb-accept k e b taken in
          let (address, seq_num) = accept-noted e b in
          is_accepted-repeat k again b' (ap (λ c. c.last_address) same ∙ address)
            (ap (λ c. c.last_seq_num) same ∙ seq_num)
      | inr skipped ↦
          let (role, address, seq_num) = rx_complete_cb-skip k e b skipped in
          is_accepted-congr k e later m b b' role address seq_num ∙ skipped
    ])

-- What is printed depends on the role and the message number only, and so do these afterwards.
process_one-congr :
    (k : Params) (copies : Mbuf → Bool) (m : Mbuf) (b c : Backhaul)
    → b.role ≡ c.role
    → b.msg_id ≡ c.msg_id
    → ((process_one k copies m b).1 ≡ (process_one k copies m c).1)
      × ((process_one k copies m b).0.role ≡ (process_one k copies m c).0.role)
      × ((process_one k copies m b).0.msg_id ≡ (process_one k copies m c).0.msg_id)
unfolding process_one
process_one-congr k copies m b c r i = (ground arith, ground arith, ground arith)

process_all-congr :
    (k : Params) (copies : Mbuf → Bool) (ms : List Mbuf) (b c : Backhaul)
    → b.role ≡ c.role
    → b.msg_id ≡ c.msg_id
    → ((process_all k copies ms b).1 ≡ (process_all k copies ms c).1)
      × ((process_all k copies ms b).0.role ≡ (process_all k copies ms c).0.role)
      × ((process_all k copies ms b).0.msg_id ≡ (process_all k copies ms c).0.msg_id)
unfolding process_all
process_all-congr k copies [] b c r i = (refl, r, i)
process_all-congr k copies (m ∷ ms) b c r i =
    let (out, role, mid) = process_one-congr k copies m b c r i in
    let (outs, roles, mids) =
      process_all-congr k copies ms (process_one k copies m b).0 (process_one k copies m c).0 role
        mid in
    (cc, roles, mids)

process_all-append :
    (k : Params) (copies : Mbuf → Bool) (ms : List Mbuf) (m : Mbuf) (b : Backhaul)
    → (process_all k copies (ms ++ m ∷ []) b).1
      ≡ (process_all k copies ms b).1 ++ (process_one k copies m (process_all k copies ms b).0).1
unfolding process_all
process_all-append k copies [] m b = append-nil _
process_all-append k copies (x ∷ ms) m b =
    ap (◌++◌ (process_one k copies x b).1)
      (process_all-append k copies ms m (process_one k copies x b).0)
    ∙ sym (append_assoc (process_one k copies x b).1 _ _)

process_all-role :
    (k : Params) (copies : Mbuf → Bool) (ms : List Mbuf) (b : Backhaul)
    → (process_all k copies ms b).0.role ≡ b.role
unfolding process_all process_one
process_all-role k copies [] b = refl
process_all-role k copies (m ∷ ms) b =
    process_all-role k copies ms (process_one k copies m b).0 ∙ ground arith

process_one-bridge :
    (k : Params) (copies : Mbuf → Bool) (m : Mbuf) (b : Backhaul)
    → b.role ≡ bridge
    → copies m ≡ true
    → (process_one k copies m b).1
      ≡ record { mid = b.msg_id; payload_len = min m.dlen (sizeof_pkg k); body = shown k m } ∷ []
unfolding process_one
process_one-bridge k copies m b role ok = ground arith

abbrev queued : RxEnv → Mbuf
queued e = record { dlen = dlen_field e.frame_len; body = e.rxbuf }

rx_complete_cb-accepted :
    (k : Params) (e : RxEnv) (b : Backhaul)
    → is_accepted k e b ≡ true
    → e.mbuf.alloc ≡ true
    → e.mbuf.copy_rc ≡ 0
    → e.mbuf.put_rc ≡ 0
    → let b' = (rx_complete_cb k e b).0 in
      (b'.queue ≡ b.queue ++ queued e ∷ []) × (b'.role ≡ b.role) × (b'.msg_id ≡ b.msg_id)
unfolding rx_complete_cb accept
rx_complete_cb-accepted k e b ok alloc copy_rc put_rc = (ground arith, ground arith, ground arith)

-- A frame that a bridge accepts, and that the kernel has room for, is what the next run of
-- `process_rx_data_queue` prints last: its bytes, up to the size of a packet and as far as the
-- 15 bits of the length field say.
accepted_printed :
    (k : Params) (copies : Mbuf → Bool) (e : RxEnv) (b : Backhaul)
    → b.role ≡ bridge
    → is_accepted k e b ≡ true
    → e.mbuf.alloc ≡ true
    → e.mbuf.copy_rc ≡ 0
    → e.mbuf.put_rc ≡ 0
    → ((m : Mbuf) → copies m ≡ true)
    → (p : Printed) × ((process_rx_data_queue k copies (rx_complete_cb k e b).0).1
        ≡ (process_rx_data_queue k copies b).1 ++ p ∷ [])
      × (p.body ≡ shown k (queued e))
      × (p.payload_len ≡ min (e.frame_len % 2 ^ 15) (sizeof_pkg k))
unfolding process_rx_data_queue
accepted_printed k copies e b role ok alloc copy_rc put_rc all =
    let (queue, role', mid) = rx_complete_cb-accepted k e b ok alloc copy_rc put_rc in
    let b' = (rx_complete_cb k e b).0 in
    let c' = record b' { queue = [] } in
    let c = record b { queue = [] } in
    let (out, roles, mids) = process_all-congr k copies b.queue c' c role' mid in
    let last = (process_all k copies b.queue c').0 in
    let printed =
      process_one-bridge k copies (queued e) last
        (process_all-role k copies b.queue c' ∙ role' ∙ role) (all (queued e)) in
    (
      record {
        mid = last.msg_id;
        payload_len = min (dlen_field e.frame_len) (sizeof_pkg k);
        body = shown k (queued e);
      },
      rw queue (process_all-append k copies b.queue (queued e) c' ∙ cc),
      refl,
      refl,
    )
