-- ===== src/Updates.antt =====
-- New radio settings in the TDMA applications: four of them share one protocol, in which a change
-- that comes while the radio is synchronised waits, as a flag, for a slot.
use uwb_apps.Prelude.{
  ℕ, ◌+◌, ◌≤◌, ◌≡◌, Bool, true, false, not, List, [], ◌∷◌, ◌++◌, count_if, count_if-append,
  if◌then◌else◌, arith,
}
use uwb_apps.Radio.{Cmd, is_config}
use uwb_apps.Tdma.{Slot, in_ccp}
use uwb_apps.Rtdoa.Node
use uwb_apps.Rtdoa.Tag
use uwb_apps.Twr.Nranges
use uwb_apps.Twr.Nranges.{Settings}
use uwb_apps.Streaming

-- The applications, each with what its slot callback needs besides the slot.
pub data App : Type 0 where
  rtdoa_node : Bool → App
  rtdoa_tag : App
  nranges : Settings → Bool → App
  streaming : ℕ → ℕ → Bool → App

-- The settings change, with `dpl_sem_get_count(&ccp->sem)` and `ccp->status.valid`, or a slot begins of
-- the callback that writes the settings. The callbacks of the other slots do not touch the flag.
pub data Event : Type 0 where
  change : ℕ → Bool → Event
  slot : Slot → Event

-- One event of an application: the flag `uwb_config_updated` after it, and the calls.
abbrev pub step : App → Event → Bool → Bool × List Cmd
step (rtdoa_node fails) (change sem valid) p = Node.uwb_config_upd_cb sem valid p
step (rtdoa_node fails) (slot t) p = Node.rtdoa_slot_timer_cb t fails p
step rtdoa_tag (change sem valid) p = Tag.uwb_config_upd_cb sem valid p
step rtdoa_tag (slot t) p = Tag.nmgr_slot_timer_cb t p
step (nranges c fails) (change sem valid) p = Nranges.uwb_config_updated_cb sem p
step (nranges c fails) (slot t) p = Nranges.slot_cb c t fails p
step (streaming pre lat sends) (change sem valid) p = Streaming.uwb_config_updated_func sem p
step (streaming pre lat sends) (slot t) p = Streaming.stream_slot_cb pre lat t sends p

abbrev pub run : App → List Event → Bool → Bool × List Cmd
run a [] p = (p, [])
run a (e ∷ es) p = let (p', out) = step a e p in let (p'', rest) = run a es p' in (p'', out ++ rest)

abbrev pub is_change : Event → Bool
is_change (change sem valid) = true
is_change (slot t) = false

abbrev pub is_ready : Event → Bool
is_ready (change sem valid) = false
is_ready (slot t) = not (in_ccp t)

-- How often the settings were written to the radio, and what the flag still owes.
abbrev pub configs : List Cmd → ℕ
configs = count_if is_config

abbrev pub owed : Bool → ℕ
owed p = if p then 1 else 0

-- One event writes the settings or owes it, never both, never without a change.
step-change :
    (a : App) (sem : ℕ) (valid : Bool) (p : Bool)
    → let (p', out) = step a (change sem valid) p in
      (1 ≤ configs out + owed p')
      × (configs out + owed p' ≤ 1 + owed p)
      × (owed p ≤ configs out + owed p')
unfolding Node.uwb_config_upd_cb Tag.uwb_config_upd_cb Nranges.uwb_config_updated_cb
    Streaming.uwb_config_updated_func is_config
step-change (rtdoa_node fails) sem valid p = ground arith
step-change rtdoa_tag sem valid p = ground arith
step-change (nranges c fails) sem valid p = ground arith
step-change (streaming pre lat sends) sem valid p = ground arith

configs-range_in_slot :
    (c : Settings) (t : Slot) (fails : Bool) → configs (Nranges.range_in_slot c t fails) ≡ 0
unfolding Nranges.range_in_slot is_config
configs-range_in_slot c t fails = ground arith

step-slot :
    (a : App) (t : Slot) (p : Bool)
    → let (p', out) = step a (slot t) p in
      (configs out + owed p' ≡ owed p) × (in_ccp t ≡ false → p' ≡ false)
unfolding Node.rtdoa_slot_timer_cb Tag.nmgr_slot_timer_cb Nranges.slot_cb Streaming.stream_slot_cb
    is_config
step-slot (rtdoa_node fails) t p = (ground arith, ground arith)
step-slot rtdoa_tag t p = (ground arith, ground arith)
step-slot (nranges c fails) t p = (ground (arith, configs-range_in_slot c t fails), ground arith)
step-slot (streaming pre lat sends) t p = (ground arith, ground arith)

-- Over any history, the settings are written at most once for each change: the writes and what is
-- still owed never exceed the changes and what was owed before.
configs-le-changes :
    (a : App) (es : List Event) (p : Bool)
    → let (p', out) = run a es p in configs out + owed p' ≤ count_if is_change es + owed p
configs-le-changes a [] p = omega arith
configs-le-changes a (change sem valid ∷ es) p =
    let (p', out) = step a (change sem valid) p in
    omega (
      arith,
      step-change a sem valid p,
      configs-le-changes a es p',
      count_if-append is_config out (run a es p').1,
    )
configs-le-changes a (slot t ∷ es) p =
    let (p', out) = step a (slot t) p in
    omega (
      arith,
      step-slot a t p,
      configs-le-changes a es p',
      count_if-append is_config out (run a es p').1,
    )
