-- ===== src/Twr/Tag.antt =====
-- apps/twr_tag_tdma/src/main.c: a tag that ranges with the clock master in every slot.
use uwb_apps.Prelude.{
  ℕ, ◌%◌, Bool, true, false, not, ◌&&◌, List, [], ◌∷◌, ◌++◌, length, get_or, ◌==◌, if◌then◌else◌,
}
use uwb_apps.Radio.{
  Cmd, mask_tx_time, mac_config, txrf_config, rng_request_delay, event_put, led_toggle, message,
}
use uwb_apps.Tdma.{Slot}

-- UWB_DATA_CODE_SS_TWR, …_SS_TWR_EXT, …_SS_TWR_ACK, …_DS_TWR, …_DS_TWR_EXT.
pub record Modes : Type 0 where
  pub ss : ℕ
  pub ss_ext : ℕ
  pub ss_ack : ℕ
  pub ds : ℕ
  pub ds_ext : ℕ

-- The tests on `slot->idx & 7` in `slot_cb`, each after the one before.
unfoldable pub slot_mode : Modes → ℕ → ℕ
slot_mode m idx =
    let k = idx % 8 in
    let mode0 = m.ss_ack in
    let mode1 = if k == 1 then m.ss else mode0 in
    let mode2 = if k == 2 then m.ss_ext else mode1 in
    let mode3 = if k == 3 then m.ds else mode2 in if k == 4 then m.ds_ext else mode3

-- `slot_cb`; `short_addresses` are those of `ccp->frames`, `ccp_idx` is `ccp->idx`.
unfoldable pub slot_cb : Modes → List ℕ → ℕ → Slot → List Cmd
slot_cb m short_addresses ccp_idx t =
    led_toggle
    ∷ rng_request_delay (get_or short_addresses (ccp_idx % length short_addresses) 0)
        (mask_tx_time (t.tx_slot_start t.idx)) (slot_mode m t.idx)
    ∷ []

abbrev is_range_frame : ℕ → ℕ → ℕ → Bool
is_range_frame range range_ack fctrl = not (not (fctrl == range) && not (fctrl == range_ack))

-- `complete_cb`: the new `g_idx_latest`, the calls, and the Boolean that is returned.
unfoldable pub complete_cb : ℕ → ℕ → ℕ → ℕ → ℕ → Bool → ℕ → ℕ × List Cmd × Bool
complete_cb range range_ack fctrl idx nframes is_queued idx_latest =
    if not (is_range_frame range range_ack fctrl)
    then (idx_latest, [], false)
    else (idx % nframes, if not is_queued then event_put ∷ [] else [], true)

-- `error_cb`, over the three bits of the status that it reports.
unfoldable pub error_cb : ℕ → ℕ → ℕ → Bool → Bool → Bool → List Cmd × Bool
error_cb range range_ack fctrl start_rx_error start_tx_error rx_error =
    if not (is_range_frame range range_ack fctrl) then ([], false) else (
      (if start_rx_error then message ∷ [] else [])
          ++ ((if start_tx_error then message ∷ [] else [])
              ++ (if rx_error then message ∷ [] else [])),
      true,
    )

-- `uwb_config_updated`
unfoldable pub uwb_config_updated : List Cmd
uwb_config_updated = mac_config ∷ txrf_config ∷ message ∷ []

-- `slot_complete_cb`
unfoldable pub slot_complete_cb : List Cmd
slot_complete_cb = led_toggle ∷ []
