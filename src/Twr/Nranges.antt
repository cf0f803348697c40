-- ===== src/Twr/Nranges.antt =====
-- apps/twr_nranges_tdma/src/main.c: tags that range with n nodes in one slot. The callbacks take the
-- pending flag `uwb_config_updated`, and return their calls in order.
use uwb_apps.Prelude.{
  ℕ, zero, suc, ◌+◌, ◌-◌, ◌%◌, Bool, true, false, not, ◌&&◌, ◌||◌, List, [], ◌∷◌, ltb, ◌==◌,
  if◌then◌else◌,
}
use uwb_apps.Radio.{
  Cmd, mask_tx_time, forcetrxoff, mac_config, txrf_config, start_rx, set_delay_start,
  set_rx_timeout, nrng_request, nrng_listen, nmgr_process_tx, message, led_toggle, event_put,
}
use uwb_apps.Float.{Float, FloatOps}
use uwb_apps.Tdma.{Slot, in_ccp, request_timeout, slot_mask}

-- `uwb_config_updated_cb`
unfoldable pub uwb_config_updated_cb : ℕ → Bool → Bool × List Cmd
uwb_config_updated_cb ccp_sem pending =
    if ccp_sem == 0
    then (pending, forcetrxoff ∷ mac_config ∷ txrf_config ∷ start_rx ∷ [])
    else (true, [])

-- MYNEWT_VAL(NRNG_NTAGS), MYNEWT_VAL(NODE_START_SLOT_ID), MYNEWT_VAL(NODE_END_SLOT_ID)
pub record Settings : Type 0 where
  pub ntags : ℕ
  pub node_start : ℕ
  pub node_end : ℕ

-- The end of `slot_cb`: an anchor listens, and a tag ranges in the slots that are its own. `fails`
-- is the error that the request reports.
unfoldable pub range_in_slot : Settings → Slot → Bool → List Cmd
range_in_slot c t fails =
    let request =
      nrng_request t.broadcast (mask_tx_time (t.tx_slot_start t.idx))
        (slot_mask c.node_start c.node_end)
      ∷ (if fails then message ∷ [] else []) in
    if t.is_anchor
    then set_delay_start (t.rx_slot_start t.idx)
      ∷ set_rx_timeout (request_timeout t + 0x1000)
      ∷ nrng_listen
      ∷ []
    else if not ((t.idx % c.ntags) == t.slot_id)
    then []
    else request

-- The slots that also serve the queue of newtmgr packets.
abbrev pub is_nmgr_slot : Slot → Bool
is_nmgr_slot t = ltb 6 t.idx && ltb t.idx (t.nslots - 6) && ((t.idx % 4) == 0)

-- `slot_cb`
unfoldable pub slot_cb : Settings → Slot → Bool → Bool → Bool × List Cmd
slot_cb c t fails pending =
    let queue = nmgr_process_tx (t.tx_slot_start t.idx) in
    if in_ccp t
    then (pending, [])
    else if pending
    then (false, forcetrxoff ∷ mac_config ∷ txrf_config ∷ [])
    else if (t.ccp_local_epoch == 0) || (t.slot_id == 0xffff)
    then (pending, [])
    else if is_nmgr_slot t
    then (pending, queue ∷ (if t.nmgr_sends then [] else range_in_slot c t fails))
    else (pending, range_in_slot c t fails)

-- `nrng_complete_cb` over the code of the newest frame; the arguments are the codes
-- UWB_DATA_CODE_DS_TWR_NRNG_FINAL, …_EXT_FINAL and …_END.
unfoldable pub nrng_complete_cb : ℕ → ℕ → ℕ → ℕ → ℕ × List Cmd
nrng_complete_cb final ext_final end_code code =
    (if (code == final) || (code == ext_final) then end_code else code, led_toggle ∷ [])

-- `complete_cb`; the argument `range` is FCNTL_IEEE_RANGE_16.
unfoldable pub complete_cb : ℕ → ℕ → Bool × List Cmd
complete_cb range fctrl = if not (fctrl == range) then (false, []) else (true, event_put ∷ [])

-- `pan_complete_cb`: the two messages are printed once a slot is assigned.
unfoldable pub pan_complete_cb : ℕ → List Cmd
pan_complete_cb slot_id = if not (slot_id == 0xffff) then message ∷ message ∷ [] else []

-- The callbacks that `main` assigns to slots.
pub data Handler : Type 0 where
  pan survey_range survey_broadcast range : Handler

unfoldable pub assign_loop : ℕ → ℕ → List (ℕ × Handler)
assign_loop zero i = []
assign_loop (suc r) i = (i, range) ∷ assign_loop r (suc i)

-- The slots of `main`, for TDMA_NSLOTS slots. `survey` holds SURVEY_RANGE_SLOT and
-- SURVEY_BROADCAST_SLOT where SURVEY_ENABLED is set.
unfoldable pub assign_slots : Bool → ℕ × ℕ → ℕ → List (ℕ × Handler)
unfolding assign_loop
assign_slots survey (at_range, at_broadcast) nslots =
    (1, pan)
    ∷ (2, pan)
    ∷ (if survey
        then (at_range, survey_range)
          ∷ (at_broadcast, survey_broadcast)
          ∷ assign_loop (nslots - 6) 6
        else assign_loop (nslots - 3) 3)

-- `tof_comp_cb`, for the point UWB_CCP_TOF_COMP_LOCATION_X, … with `sqrtf`, the cast to `uint32_t`, and
-- `uwb_rng_tof_to_meters` of 1.0. The address is not used.
unfoldable pub tof_comp_cb :
    FloatOps
    → (sqrtf : Float → Float) (cast : Float → ℕ) (tof_to_meters : Float) (x y z : Float) → ℕ
    → ℕ
tof_comp_cb ops sqrtf cast tof_to_meters x y z short_addr =
    let square = λ (f : Float). ops.mul f f in
    let dist_in_meters = sqrtf (ops.add (ops.add (square x) (square y)) (square z)) in
    cast (ops.quotient dist_in_meters tof_to_meters)
