-- ===== src/Rtdoa/Console.antt =====
-- From the slots of apps/rtdoa_tag to its console: the tag is a bridge for its own reports, which
-- lib/rtdoa_backhaul prints in the compact form.
pub mod Handler
pub mod Sends
pub mod Lines
use uwb_apps.Prelude.{
  ℕ, ◌+◌, ◌^◌, ◌≡◌, Bool, true, not, ◌&&◌, List, [], ◌∷◌, ◌++◌, length, all, u32, leb, ◌==◌, ◌/◌,
  if◌then◌else◌,
}
use uwb_apps.Tdma.{Slot, in_ccp}
use uwb_apps.Float.{FloatOps}
use uwb_apps.Backhaul.Packet.{Params, RangeData, SensorData}
use uwb_apps.Backhaul.State.{
  Backhaul, Mbuf, MbufCalls, Printed, bridge, process_rx_data_queue, shown,
}
use uwb_apps.Backhaul.Copied.Whole.{View, view}
use uwb_apps.Backhaul.Send.{send_imu_only}
use uwb_apps.Backhaul.Send.Ranges.{counted, report}
use uwb_apps.Backhaul.Print.Compact.{is_quality}
use uwb_apps.Backhaul.Delivery.{Content, with_sensors}
use uwb_apps.Backhaul.Delivery.Text.{is_printable}
use uwb_apps.Rtdoa.Tag.{AfterListen, rtdoa_slot_timer_cb}

-- What happens to the tag: a ranging slot, with the readings that are stored for it; a report of the
-- sensor timer at a time, with those stored for it; a run of the queue handler.
pub data Event : Type 0 where
  slot : SensorData → Slot → AfterListen → Event
  imu : SensorData → MbufCalls → ℕ → Event
  console : Event

-- What a line tells, but for its number.
pub record Report : Type 0 where
  pub ranges : List RangeData
  pub ref_anchor_addr : ℕ
  pub sensors : SensorData

abbrev pub summarised : View → Report
summarised v = record {
  ranges = v.ranges;
  ref_anchor_addr = v.ref_anchor_addr;
  sensors = v.sensors;
}

-- That of a queued packet, as far as it is copied.
abbrev pub summary : Params → Mbuf → Report
summary k m = summarised (view (shown k m))

abbrev pub with_number : ℕ → Report → Content
with_number mid r = record {
  mid = mid;
  ranges = r.ranges;
  ref_anchor_addr = r.ref_anchor_addr;
  sensors = r.sensors;
}

-- Reports with consecutive numbers.
abbrev pub number : ℕ → List Report → List Content
number mid [] = []
number mid (r ∷ rs) = with_number mid r ∷ number (u32 (mid + 1)) rs

abbrev pub advance : ℕ → List Report → ℕ
advance mid [] = mid
advance mid (r ∷ rs) = advance (u32 (mid + 1)) rs

abbrev pub is_served : MbufCalls → Bool
is_served m = m.alloc && (m.copy_rc == 0) && (m.put_rc == 0)

abbrev pub with_imu_sensors : SensorData → Backhaul → Backhaul
with_imu_sensors d b = let p = b.pkg_imu in record b { pkg_imu = record p { sensors = d } }

module _ (ops : FloatOps) (k : Params) where
  -- A run of the program, with what the handler hands to `rtdoa_backhaul_print`.
  unfoldable pub run : List Event → Backhaul → Backhaul × List Printed
  run [] b = (b, [])
  run (slot d t a ∷ es) b = run es (rtdoa_slot_timer_cb ops k t a (with_sensors d b)).0
  run (imu d m ts ∷ es) b = run es (send_imu_only k m ts (with_imu_sensors d b))
  run (console ∷ es) b =
      let (b', out) = process_rx_data_queue k (λ _. true) b in
      let (b'', rest) = run es b' in (b'', out ++ rest)

  -- The CCP leaves the slot and the end of its listen free.
  abbrev pub is_free : Slot → AfterListen → Bool
  is_free t a = not (in_ccp t) && not (a.ccp_sem == 0)

  -- The report that an event makes: that of a slot has the time of the slot in the network, and that of the
  -- sensor timer no ranges.
  abbrev pub made : Event → List Report
  made (slot d t a) =
      if is_free t a && is_served a.env.mbuf
      then record {
        ranges = report ops a.env.frames;
        ref_anchor_addr = a.env.req_src_address;
        sensors = record d { ts = a.master_time / 2 ^ 16 };
      }
        ∷ []
      else []
  made (imu d m ts) =
      if is_served m
      then record { ranges = []; ref_anchor_addr = 0; sensors = record d { ts = ts } } ∷ []
      else []
  made console = []

  abbrev pub reports : List Event → List Report
  reports [] = []
  reports (e ∷ es) = made e ++ reports es

  -- Every frame of the slot can have an entry, and the qualities are 0 or 1.
  abbrev pub is_fitting : Event → Bool
  is_fitting (slot d t a) =
      leb (length a.env.frames) k.max_ranges && all is_quality (report ops a.env.frames)
  is_fitting e = true

  -- The tag between two events: a bridge with all the slots of its packet, no ranges in the packet of the
  -- sensor timer, and a queue of packets that can be printed.
  pub record IsTag (b : Backhaul) : Type 0 where
    pub role : b.role ≡ bridge
    pub slots : length b.pkg.ranges ≡ k.max_ranges
    pub no_ranges : b.pkg_imu.num_ranges ≡ 0
    pub no_anchor : b.pkg_imu.ref_anchor_addr ≡ 0
    pub printable : all (λ m. is_printable (shown k m)) b.queue ≡ true
