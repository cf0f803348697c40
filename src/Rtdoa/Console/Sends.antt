-- ===== src/Rtdoa/Console/Sends.antt =====
-- The reports of a tag on their way to its queue.
use Prim.Native.Nat.{min}
use mathlib.Core.List.{append-nil, map-append}
use uwb_apps.Prelude.{
  ℕ, ◌+◌, ◌^◌, ◌≤◌, ◌<◌, ◌≡◌, refl, sym, ap, ◌∙◌, true, false, ◌&&◌, List, [], ◌∷◌, ◌++◌, length,
  length-replicate, all, all-append, map, u8, leb, ◌==◌, ◌/◌, if◌then◌else◌, arith, Bool-cases, inl,
  inr,
}
use uwb_apps.Tdma.{Slot, in_ccp}
use uwb_apps.Float.{FloatOps}
use uwb_apps.Backhaul.Packet.{Params, ResultsPkg, SensorData, sizeof_pkg, sizeof_sensor_data}
use uwb_apps.Backhaul.Copied.Whole.{view, view-copied, view-readings}
use uwb_apps.Backhaul.Copied.{is_whole}
use uwb_apps.Backhaul.State.{shown, Backhaul, Mbuf, MbufCalls, dlen_field, set_ts, local_send}
use uwb_apps.Backhaul.Send.{SendEnv, send, send_imu_only}
use uwb_apps.Backhaul.Send.Ranges.{counted, report, length-report-le}
use uwb_apps.Backhaul.Send.Packing.{IsReady, bridge_copy, next_round}
use uwb_apps.Backhaul.Print.Compact.{is_quality}
use uwb_apps.Backhaul.Delivery.{with_sensors}
use uwb_apps.Backhaul.Delivery.Text.{can_print, is_printable, within-counted}
use uwb_apps.Rtdoa.Tag.{AfterListen, rtdoa_slot_timer_cb}
use uwb_apps.Rtdoa.Console.{
  slot, imu, Report, summary, summarised, is_served, with_imu_sensors, made, is_fitting, IsTag,
}

module _ (ops : FloatOps) (k : Params) where
  -- What an event but the handler leaves: the same numbers, and its report behind those on the queue.
  abbrev pub Adds : Backhaul → Backhaul → List Report → Type 0
  Adds b b' rs =
      (map (summary k) b'.queue ≡ map (summary k) b.queue ++ rs)
      × (b'.msg_id ≡ b.msg_id)
      × IsTag ops k b'

  local_send_lem :
      (m : MbufCalls) (p : ResultsPkg) (dlen : ℕ) (b : Backhaul)
      → let b' = (local_send k m p dlen b).0 in
        (b'.queue
          ≡ b.queue
            ++ (if is_served m then record { dlen = dlen_field dlen; body = p } ∷ [] else []))
        × (b'.pkg ≡ b.pkg)
        × (b'.pkg_imu ≡ b.pkg_imu)
        × (b'.role ≡ b.role)
        × (b'.msg_id ≡ b.msg_id)
  unfolding local_send
  local_send_lem m p dlen b =
      (ground (arith, append-nil b.queue), ground arith, ground arith, ground arith, ground arith)

  -- A packet that is put on the queue if it is served.
  adds_packet :
      (m : MbufCalls) (n : ℕ) (p : ResultsPkg) (queue queue' : List Mbuf) (r : Report)
      → queue' ≡ queue ++ (if is_served m then record { dlen = n; body = p } ∷ [] else [])
      → view (shown k (record { dlen = n; body = p })) ≡ view p
      → summarised (view p) ≡ r
      → is_printable p ≡ true
      → all (λ m. is_printable (shown k m)) queue ≡ true
      → (map (summary k) queue' ≡ map (summary k) queue ++ (if is_served m then r ∷ [] else []))
        × (all (λ m. is_printable (shown k m)) queue' ≡ true)
  adds_packet m n p queue queue' r eq whole same fine good = elim (Bool-cases (is_served m)) [
    | inl served ↦
        let m' : Mbuf = record { dlen = n; body = p } in
        let told : summary k m' ≡ r = ap summarised whole ∙ same in
        let ok : is_printable (shown k m') ≡ true = ap can_print whole ∙ fine in
        rw (eq, served)
          (
            rw (map-append, told) refl,
            rw (all-append (λ m. is_printable (shown k m)) queue, ok, good) refl,
          )
    | inr refused ↦
        rw (eq, refused, append-nil queue) (sym (append-nil (map (summary k) queue)), good)
  ]

  -- The report of the sensor timer is as long as its readings.
  readings_len :
      sizeof_pkg k < 2 ^ 15
      → min (dlen_field (k.head_size + sizeof_sensor_data)) (sizeof_pkg k)
        ≡ k.head_size + sizeof_sensor_data
  readings_len fits = ground (arith, fits)

  pub imu_lem :
      (d : SensorData) (m : MbufCalls) (ts : ℕ) (b : Backhaul)
      → sizeof_pkg k < 2 ^ 15
      → IsTag ops k b
      → Adds b (send_imu_only k m ts (with_imu_sensors d b)) (made ops k (imu d m ts))
  unfolding send_imu_only
  imu_lem d m ts b fits t =
      let q = b.pkg_imu in
      let h = q.head in
      let p : ResultsPkg = record q {
        head = record h { seq_num = u8 (h.seq_num + 1) };
        sensors = record d { ts = ts };
      } in
      let dlen = k.head_size + sizeof_sensor_data in
      let (queue, pkg, timer, role, mid) = local_send_lem m p dlen (record b { pkg_imu = p }) in
      let (added, printable) =
        adds_packet m (dlen_field dlen) p b.queue _
          (record { ranges = []; ref_anchor_addr = 0; sensors = record d { ts = ts } }) queue
          (rw (readings_len fits) (view-readings k p t.no_anchor t.no_ranges))
          (rw (t.no_ranges, t.no_anchor) refl) (rw t.no_ranges (ground arith)) t.printable in
      (
        added,
        mid,
        record {
          role = role ∙ t.role;
          slots = ap (λ p. length p.ranges) pkg ∙ t.slots;
          no_ranges = t.no_ranges;
          no_anchor = t.no_anchor;
          printable = printable;
        },
      )

  send_kept :
      (e : SendEnv) (b : Backhaul)
      → let b' = (send ops k e 0 b).0 in
        (b'.role ≡ b.role) × (b'.msg_id ≡ b.msg_id) × (b'.pkg_imu ≡ b.pkg_imu)
  unfolding send local_send
  send_kept e b = (ground arith, ground arith, ground arith)

  send_refused :
      (e : SendEnv) (b : Backhaul) → is_served e.mbuf ≡ false → (send ops k e 0 b).0.queue ≡ b.queue
  unfolding send local_send
  send_refused e b refused = ground arith

  module _ (few : k.max_ranges ≤ 255) (fits : sizeof_pkg k < 2 ^ 15) where
    send_lem :
        (e : SendEnv) (b : Backhaul)
        → IsTag ops k b
        → leb (length e.frames) k.max_ranges && all is_quality (report ops e.frames) ≡ true
        → Adds b (send ops k e 0 b).0 (
            if is_served e.mbuf
            then record {
              ranges = report ops e.frames;
              ref_anchor_addr = e.req_src_address;
              sensors = b.pkg.sensors;
            }
              ∷ []
            else [])
    send_lem e b t h =
        let r : Report = record {
          ranges = report ops e.frames;
          ref_anchor_addr = e.req_src_address;
          sensors = b.pkg.sensors;
        } in
        let ready : IsReady k e b = record {
          slots = t.slots;
          few = few;
          fits = fits;
          room = ground arith;
        } in
        let (role, mid, timer) = send_kept e b in
        let (_, ranges, _, _) = next_round ops k e 0 b ready in
        let b' = (send ops k e 0 b).0 in
        let queued : (map (summary k) b'.queue
              ≡ map (summary k) b.queue ++ (if is_served e.mbuf then r ∷ [] else []))
            × (all (λ m. is_printable (shown k m)) b'.queue ≡ true) =
          elim (Bool-cases (is_served e.mbuf)) [
            | inl served ↦
                let (m, queue, content', count, dlen, reference, sensors, _) =
                  bridge_copy ops k e 0 b ready t.role refl (ground arith) (ground arith)
                    (ground arith) in
                let within = within-counted m.body (count ∙ sym (ap length content')) in
                let quality : all is_quality (counted m.body) ≡ true = rw content' (ground arith) in
                let few_enough = length-report-le ops e.frames in
                let whole : is_whole k (min m.dlen (sizeof_pkg k)) m.body ≡ true =
                  ground (arith, dlen, count, few_enough, ready.room) in
                adds_packet e.mbuf m.dlen m.body b.queue b'.queue r (rw served queue)
                  (view-copied k (min m.dlen (sizeof_pkg k)) m.body whole)
                  (rw (content', reference, sensors) refl) (ground arith) t.printable
            | inr refused ↦
                rw (send_refused e b refused, refused)
                  (sym (append-nil (map (summary k) b.queue)), t.printable)
          ] in
        (
          queued.0,
          mid,
          record {
            role = role ∙ t.role;
            slots = rw ranges (length-replicate k.max_ranges _);
            no_ranges = ap (λ p. p.num_ranges) timer ∙ t.no_ranges;
            no_anchor = ap (λ p. p.ref_anchor_addr) timer ∙ t.no_anchor;
            printable = queued.1;
          },
        )

    pub slot_lem :
        (d : SensorData) (t : Slot) (a : AfterListen) (b : Backhaul)
        → IsTag ops k b
        → is_fitting ops k (slot d t a) ≡ true
        → Adds b (rtdoa_slot_timer_cb ops k t a (with_sensors d b)).0 (made ops k (slot d t a))
    unfolding rtdoa_slot_timer_cb set_ts
    slot_lem d t a b tag h =
        let none_added = append-nil (map (summary k) b.queue) in
        let read : IsTag ops k (with_sensors d b) = record {
          role = tag.role;
          slots = tag.slots;
          no_ranges = tag.no_ranges;
          no_anchor = tag.no_anchor;
          printable = tag.printable;
        } in
        let timed : IsTag ops k (set_ts (a.master_time / 2 ^ 16) (with_sensors d b)) = record {
          role = tag.role;
          slots = tag.slots;
          no_ranges = tag.no_ranges;
          no_anchor = tag.no_anchor;
          printable = tag.printable;
        } in
        elim (Bool-cases (in_ccp t)) [
          | inl taken ↦ rw taken (sym none_added, refl, read)
          | inr free ↦ elim (Bool-cases (a.ccp_sem == 0)) [
            | inl taken ↦ rw (free, taken) (sym none_added, refl, read)
            | inr free_too ↦ rw (free, free_too) (send_lem a.env _ timed h)
          ]
        ]
