-- ===== src/Rtdoa/Console/Lines.antt =====
-- What a tag writes to its console over a run of its callbacks.
use mathlib.Core.List.{append-nil, append_assoc, map-append}
use uwb_apps.Prelude.{
  ℕ, ◌^◌, ◌≤◌, ◌<◌, ◌≡◌, refl, sym, ap, ◌∙◌, true, List, [], ◌∷◌, ◌++◌, all, all-append, map, arith,
}
use uwb_apps.Float.{FloatOps}
use uwb_apps.Json.{is_valid}
use uwb_apps.Backhaul.Packet.{Params, sizeof_pkg}
use uwb_apps.Backhaul.State.{Backhaul, Printed, process_rx_data_queue}
use uwb_apps.Backhaul.Send.{send_imu_only}
use uwb_apps.Backhaul.Delivery.{content, with_sensors}
use uwb_apps.Backhaul.Delivery.Text.{
  is_printable, console_text, console_text_lem, documents, lines_of,
}
use uwb_apps.Rtdoa.Tag.{rtdoa_slot_timer_cb}
use uwb_apps.Rtdoa.Console.{
  Event, slot, imu, console, summary, number, advance, with_imu_sensors, run, made, reports,
  is_fitting, IsTag,
}
use uwb_apps.Rtdoa.Console.Handler.{number-append, handler_lem}
use uwb_apps.Rtdoa.Console.Sends.{imu_lem, slot_lem}

module _ (ops : FloatOps) (k : Params) (few : k.max_ranges ≤ 255)
    (fits : sizeof_pkg k < 2 ^ 15) where
  -- What a run that ends with the handler hands over.
  abbrev Hands : Backhaul → List Event → List Printed → Type 0
  Hands b es out =
      (map content out ≡ number b.msg_id (map (summary k) b.queue ++ reports ops k es))
      × (all (λ l. is_printable l.body) out ≡ true)

  -- An event that adds its report to the queue.
  added :
      (e : Event) (es : List Event) (b b' : Backhaul) (out : List Printed)
      → map (summary k) b'.queue ≡ map (summary k) b.queue ++ made ops k e
      → b'.msg_id ≡ b.msg_id
      → Hands b' es out
      → Hands b (e ∷ es) out
  added e es b b' out queue mid (told, fine) = (rw (mid, queue, append_assoc) at told, fine)

  run-Hands :
      (es : List Event) (b : Backhaul)
      → IsTag ops k b
      → all (is_fitting ops k) es ≡ true
      → Hands b es (run ops k (es ++ console ∷ []) b).1
  unfolding run
  run-Hands [] b t h =
      let (told, fine, _, _, _) = handler_lem ops k b t in
      let all_of = append-nil (process_rx_data_queue k (λ _. true) b).1 in
      (
        ap (map content) all_of ∙ told ∙ ap (number b.msg_id) (sym (append-nil _)),
        ap (all (λ (l : Printed). is_printable l.body)) all_of ∙ fine,
      )
  run-Hands (slot d s a ∷ es) b t h =
      let (queue, mid, t') = slot_lem ops k few fits d s a b t (ground arith) in
      let b' = (rtdoa_slot_timer_cb ops k s a (with_sensors d b)).0 in
      added (slot d s a) es b b' _ queue mid (run-Hands es b' t' (ground arith))
  run-Hands (imu d m ts ∷ es) b t h =
      let (queue, mid, t') = imu_lem ops k d m ts b fits t in
      let b' = send_imu_only k m ts (with_imu_sensors d b) in
      added (imu d m ts) es b b' _ queue mid (run-Hands es b' t' h)
  run-Hands (console ∷ es) b t h =
      let (told, fine, mid, queue, t') = handler_lem ops k b t in
      let b' = (process_rx_data_queue k (λ _. true) b).0 in
      let (tolds, fines) = run-Hands es b' t' h in
      let rest : map content (run ops k (es ++ console ∷ []) b').1
          ≡ number (advance b.msg_id (map (summary k) b.queue)) (reports ops k es) =
        rw (mid, queue) at tolds in
      (
        rw (map-append, told, rest)
            (sym (number-append b.msg_id (map (summary k) b.queue) (reports ops k es))),
        rw (all-append (λ (l : Printed). is_printable l.body), fine, fines) refl,
      )

  -- A tag is a bridge, and gets any series of ranging slots, reports of the sensor timer and runs of the
  -- queue handler, with a slot in its packet for every frame and qualities 0 or 1. In the compact form, what
  -- it writes to the console until a last run of the handler is a line of valid JSON for each packet on
  -- the queue, for each ranging slot that the CCP leaves free and for each report of the sensor timer, if
  -- the kernel has a buffer and room for it, with consecutive numbers: the line of a slot tells exactly
  -- the frames to report, their reference anchor, and the readings stored, with the time of the slot; the
  -- other has no ranges.
  pub told_as_json :
      (split_ts : ℕ → ℕ × ℕ) (es : List Event) (b : Backhaul)
      → IsTag ops k b
      → all (is_fitting ops k) es ≡ true
      → let out = (run ops k (es ++ console ∷ []) b).1 in
        (console_text ops split_ts out ≡ lines_of ops split_ts (documents ops split_ts out))
        × (all is_valid (documents ops split_ts out) ≡ true)
        × (map content out ≡ number b.msg_id (map (summary k) b.queue ++ reports ops k es))
  told_as_json split_ts es b t h =
      let (told, fine) = run-Hands es b t h in
      let (shown, ok) = console_text_lem ops split_ts _ fine in (shown, ok, told)
