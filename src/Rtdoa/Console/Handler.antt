-- ===== src/Rtdoa/Console/Handler.antt =====
-- The queue handler of lib/rtdoa_backhaul at a tag.
use Prim.Native.Nat.{min}
use uwb_apps.Prelude.{
  ℕ, ◌+◌, ◌≡◌, refl, ap, ◌∙◌, true, List, [], ◌∷◌, ◌++◌, length, all, map, u32, arith,
}
use uwb_apps.Float.{FloatOps}
use uwb_apps.Backhaul.Packet.{Params, sizeof_pkg}
use uwb_apps.Backhaul.State.{
  Backhaul, Mbuf, Printed, bridge, process_one, process_all, process_rx_data_queue, shown,
}
use uwb_apps.Backhaul.Delivery.{content}
use uwb_apps.Backhaul.Delivery.Text.{is_printable}
use uwb_apps.Rtdoa.Console.{Report, summary, with_number, number, advance, IsTag}

pub number-append :
    (mid : ℕ) (rs qs : List Report)
    → number mid (rs ++ qs) ≡ number mid rs ++ number (advance mid rs) qs
number-append mid [] qs = refl
number-append mid (r ∷ rs) qs =
    ap (λ cs. with_number mid r ∷ cs) (number-append (u32 (mid + 1)) rs qs)

module _ (ops : FloatOps) (k : Params) where
  process_one_lem :
      (m : Mbuf) (b : Backhaul)
      → b.role ≡ bridge
      → let (b', out) = process_one k (λ _. true) m b in
        (l : Printed) × (out ≡ l ∷ [])
        × (content l ≡ with_number b.msg_id (summary k m))
        × (l.body ≡ shown k m)
        × (b'.msg_id ≡ u32 (b.msg_id + 1))
        × (b'.role ≡ bridge)
        × (b'.queue ≡ b.queue)
        × (b'.pkg ≡ b.pkg)
        × (b'.pkg_imu ≡ b.pkg_imu)
  unfolding process_one
  process_one_lem m b role = (
    record { mid = b.msg_id; payload_len = min m.dlen (sizeof_pkg k); body = shown k m },
    ground arith,
    refl,
    refl,
    ground arith,
    ground arith,
    ground arith,
    ground arith,
    ground arith,
  )

  process_all_lem :
      (ms : List Mbuf) (b : Backhaul)
      → b.role ≡ bridge
      → all (λ m. is_printable (shown k m)) ms ≡ true
      → let (b', out) = process_all k (λ _. true) ms b in
        (map content out ≡ number b.msg_id (map (summary k) ms))
        × (all (λ l. is_printable l.body) out ≡ true)
        × (b'.msg_id ≡ advance b.msg_id (map (summary k) ms))
        × (b'.role ≡ bridge)
        × (b'.queue ≡ b.queue)
        × (b'.pkg ≡ b.pkg)
        × (b'.pkg_imu ≡ b.pkg_imu)
  unfolding process_all
  process_all_lem [] b role good = (refl, refl, refl, role, refl, refl, refl)
  process_all_lem (m ∷ ms) b role good =
      let b' = (process_one k (λ _. true) m b).0 in
      let (l, one, told, body, mid, role', queue, pkg, timer) = process_one_lem m b role in
      let (out, fine, mids, roles, queues, pkgs, timers) =
        process_all_lem ms b' role' (ground arith) in
      (
        rw (one, told, out, mid) refl,
        rw (one, body, fine) (ground arith),
        rw mid at mids,
        roles,
        queues ∙ queue,
        pkgs ∙ pkg,
        timers ∙ timer,
      )

  pub handler_lem :
      (b : Backhaul)
      → IsTag ops k b
      → let (b', out) = process_rx_data_queue k (λ _. true) b in
        (map content out ≡ number b.msg_id (map (summary k) b.queue))
        × (all (λ l. is_printable l.body) out ≡ true)
        × (b'.msg_id ≡ advance b.msg_id (map (summary k) b.queue))
        × (b'.queue ≡ [])
        × IsTag ops k b'
  unfolding process_rx_data_queue
  handler_lem b t =
      let (out, fine, mid, role, queue, pkg, timer) =
        process_all_lem b.queue (record b { queue = [] }) t.role t.printable in
      (
        out,
        fine,
        mid,
        queue,
        record {
          role = role;
          slots = ap (λ p. length p.ranges) pkg ∙ t.slots;
          no_ranges = ap (λ p. p.num_ranges) timer ∙ t.no_ranges;
          no_anchor = ap (λ p. p.ref_anchor_addr) timer ∙ t.no_anchor;
          printable = ap (all (λ m. is_printable (shown k m))) queue;
        },
      )
