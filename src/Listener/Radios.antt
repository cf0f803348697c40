-- ===== src/Listener/Radios.antt =====
-- The settings of the radios in apps/listener/src/main.c: `uwb_config_updated` only puts an event, and
-- the event queue runs `uwb_config_update` on it.
use uwb_apps.Prelude.{
  ℕ, zero, suc, ◌+◌, ◌<◌, ◌≡◌, ◌⊎◌, inl, inr, refl, Bool, true, false, List, [], ◌∷◌, ◌++◌, concat,
  ◌==◌, if◌then◌else◌, arith, ltb, Bool-cases,
}
use uwb_apps.Radio.{
  mac_config, txrf_config, set_dblrxbuff, set_rx_timeout, set_rxauto_disable, start_rx,
}
use uwb_apps.Startup.{Setup, radio, set_field, rxdiag_enable, Single}

-- N_DW_INSTANCES, USE_DBLBUFFER and CIR_ENABLED
pub record Radios : Type 0 where
  pub count : ℕ
  pub double_buffer : Bool
  pub cir : Bool

-- One turn of the loop of `uwb_config_update`; `rx_diag` is the bit VERBOSE_RX_DIAG of the settings.
abbrev pub update_radio : Radios → Bool → ℕ → List (Setup Single)
update_radio b rx_diag n = concat (
    (radio n mac_config ∷ radio n txrf_config ∷ [])
    ∷ (if b.double_buffer then radio n (set_dblrxbuff true) ∷ [] else [])
    ∷ (radio n (set_rx_timeout 0) ∷ [])
    ∷ (if ltb 1 b.count then radio n (set_rxauto_disable b.cir) ∷ [] else [])
    ∷ (set_field n rxdiag_enable rx_diag ∷ radio n start_rx ∷ [])
    ∷ [])

-- The loop, with the rounds that are left.
unfoldable pub update_loop : Radios → Bool → ℕ → ℕ → List (Setup Single)
update_loop b rx_diag zero n = []
update_loop b rx_diag (suc r) n = update_radio b rx_diag n ++ update_loop b rx_diag r (suc n)

unfoldable pub uwb_config_update : Radios → Bool → List (Setup Single)
unfolding update_loop
uwb_config_update b rx_diag = update_loop b rx_diag b.count 0

-- The settings that were asked for last, those that each radio was told, and whether the event is on
-- the queue.
pub record System : Type 0 where
  pub wanted : ℕ
  pub applied : ℕ → ℕ
  pub queued : Bool

-- `uwb_config_updated` after a change: an event that is queued is not queued again.
unfoldable pub uwb_config_updated : ℕ → System → System
uwb_config_updated wanted s = record s { wanted = wanted; queued = true }

-- What calls tell the radios.
abbrev pub configure : List (Setup Single) → ℕ → (ℕ → ℕ) → ℕ → ℕ
configure [] w applied = applied
configure (radio n mac_config ∷ cs) w applied =
    configure cs w (λ i. if i == n then w else applied i)
configure (c ∷ cs) w applied = configure cs w applied

-- The settings change, or the event queue runs, with the bit of the settings at that time.
pub data Event : Type 0 where
  change : ℕ → Event
  serve : Bool → Event

module _ (b : Radios) where
  unfoldable pub step : Event → System → System
  step (change wanted) s = uwb_config_updated wanted s
  step (serve rx_diag) s =
      if s.queued
      then record s {
        applied = configure (uwb_config_update b rx_diag) s.wanted s.applied;
        queued = false;
      }
      else s

  unfoldable pub run : List Event → System → System
  run [] s = s
  run (e ∷ es) s = run es (step e s)

  -- The radios have the settings that were asked for, or the event that tells them is on the queue.
  abbrev pub IsSettled : System → Type 0
  IsSettled s = (s.queued ≡ true) ⊎ ((i : ℕ) → i < b.count → s.applied i ≡ s.wanted)

  configure-update_radio :
      (rx_diag : Bool) (n w : ℕ) (cs : List (Setup Single)) (applied : ℕ → ℕ)
      → configure (update_radio b rx_diag n ++ cs) w applied
        ≡ configure cs w (λ i. if i == n then w else applied i)
  configure-update_radio rx_diag n w cs applied = elim (Bool-cases b.double_buffer) [
    | inl double ↦ elim (Bool-cases (ltb 1 b.count)) [
      | inl more ↦ rw (double, more) refl
      | inr one ↦ rw (double, one) refl
    ]
    | inr single ↦ elim (Bool-cases (ltb 1 b.count)) [
      | inl more ↦ rw (single, more) refl
      | inr one ↦ rw (single, one) refl
    ]
  ]

  configure-update_loop :
      (rx_diag : Bool) (r n w : ℕ) (applied : ℕ → ℕ) (i : ℕ)
      → i < n + r
      → (i < n → applied i ≡ w)
      → configure (update_loop b rx_diag r n) w applied i ≡ w
  unfolding update_loop
  configure-update_loop rx_diag zero n w applied i h told = told (omega arith)
  configure-update_loop rx_diag (suc r) n w applied i h told =
      let applied' : ℕ → ℕ = λ j. if j == n then w else applied j in
      let here : i < suc n → applied' i ≡ w = λ near. ground (arith, told) in
      rw (configure-update_radio rx_diag n w (update_loop b rx_diag r (suc n)) applied)
        (configure-update_loop rx_diag r (suc n) w applied' i (omega arith) here)

  step-IsSettled : (e : Event) (s : System) → IsSettled s → IsSettled (step e s)
  unfolding step uwb_config_update uwb_config_updated
  step-IsSettled (change wanted) s h = inl refl
  step-IsSettled (serve rx_diag) s h = elim (Bool-cases s.queued) [
    | inl queued ↦ rw queued (
        inr (λ i near.
          configure-update_loop rx_diag b.count 0 s.wanted s.applied i (omega arith)
            (λ early. absurd (omega arith))))
    | inr free ↦ rw free (rw free at h)
  ]

  -- Whatever the order in which settings change and the event queue runs, no change is lost: unless the
  -- event is on the queue, every radio has the settings that were asked for last, if it was so at the
  -- start.
  pub run-IsSettled : (es : List Event) (s : System) → IsSettled s → IsSettled (run es s)
  unfolding run
  run-IsSettled [] s h = h
  run-IsSettled (e ∷ es) s h = run-IsSettled es (step e s) (step-IsSettled e s h)
