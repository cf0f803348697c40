-- ===== src/Twr/Aloha.antt =====
-- apps/twr_aloha/src/main.c: tags range at will with an anchor, in the enabled modes by turns.
use uwb_apps.Prelude.{
  ℕ, ◌+◌, ◌/◌, ◌%◌, Bool, true, false, not, List, [], ◌∷◌, ◌++◌, length, get_or, ltb, leb, ◌==◌,
  if◌then◌else◌,
}
use uwb_apps.Radio.{
  Cmd, forcetrxoff, mac_config, txrf_config, rng_listen, rng_request, event_put, callout_reset,
  led_toggle,
}

-- `complete_cb`: the new `g_idx_latest`, the calls, and the Boolean that is returned. `range` is
-- FCNTL_IEEE_RANGE_16.
unfoldable pub complete_cb : ℕ → ℕ → ℕ → ℕ → ℕ → ℕ × List Cmd × Bool
complete_cb range fctrl idx nframes idx_latest =
    if not (fctrl == range) then (idx_latest, [], false) else (idx % nframes, event_put ∷ [], true)

-- An anchor listens again; the timeout is 0xfffff.
abbrev pub listen_again : List Cmd
listen_again = rng_listen 0xfffff ∷ []

-- `rx_timeout_cb`
unfoldable pub rx_timeout_cb : Bool → List Cmd × Bool
rx_timeout_cb is_anchor = ((if is_anchor then forcetrxoff ∷ listen_again else []), true)

-- `slot_complete_cb`
unfoldable pub slot_complete_cb : Bool → List Cmd
slot_complete_cb is_anchor = led_toggle ∷ (if is_anchor then listen_again else [])

-- What `uwb_ev_cb` reads: the role, the semaphore of the ranging service, ANCHOR_ADDRESS,
-- OS_TICKS_PER_SEC, and the codes of the modes that the build enables, in the order of `mode_v`.
pub record Env : Type 0 where
  pub is_anchor : Bool
  pub rng_sem : ℕ
  pub anchor_address : ℕ
  pub ticks_per_sec : ℕ
  pub modes : List ℕ

-- `if (++last_used_mode >= mode_i) last_used_mode = 0;`
abbrev pub next_mode : List ℕ → ℕ → ℕ
next_mode modes last = if leb (length modes) (last + 1) then 0 else last + 1

-- `uwb_ev_cb`, with the static `last_used_mode`. Past the enabled modes `mode_v` holds 0.
unfoldable pub uwb_ev_cb : Env → ℕ → ℕ × List Cmd
uwb_ev_cb e last =
    let last' = next_mode e.modes last in
    let mode = get_or e.modes last' 0 in
    let again = callout_reset (e.ticks_per_sec / 60) ∷ [] in
    if e.is_anchor
    then (last, (if e.rng_sem == 1 then listen_again else []) ++ again)
    else (last', (if ltb 0 mode then rng_request e.anchor_address mode ∷ [] else []) ++ again)

-- `uwb_config_updated`
unfoldable pub uwb_config_updated : Bool → List Cmd
uwb_config_updated is_anchor =
    mac_config ∷ txrf_config ∷ (if is_anchor then forcetrxoff ∷ listen_again else [])
