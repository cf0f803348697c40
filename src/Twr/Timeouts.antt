-- ===== src/Twr/Timeouts.antt =====
-- The timeout that apps/twr_node_tdma keeps between slots, and the settings that it was computed for.
use uwb_apps.Prelude.{
  ℕ, ◌+◌, ◌≡◌, ◌≢◌, ◌⊎◌, refl, Bool, true, false, not, List, [], ◌∷◌, ◌++◌, all, all-append, ◌∙◌,
  u16, ◌==◌, if◌then◌else◌, arith, any, map,
}
use uwb_apps.Radio.{Cmd, is_config, rng_listen_delay}
use uwb_apps.Tdma.{Slot, in_ccp}
use uwb_apps.Twr.Node.{Codes, State, uwb_config_updated_func, slot_cb}

-- The node, what the settings make of the duration of a request (as `uwb_usecs_to_dwt_usecs` gives
-- it), and what the radio was told last.
pub record System : Type 0 where
  pub state : State
  pub wanted : ℕ
  pub applied : ℕ

-- The settings change, with `dpl_sem_get_count(&ccp->sem)` and the new duration of a request, or a
-- slot begins.
pub data Event : Type 0 where
  change : ℕ → ℕ → Event
  slot : Slot → Event

-- The change comes while the node is synchronised.
abbrev pub is_graceful : Event → Bool
is_graceful (change sem wanted) = not (sem == 0)
is_graceful (slot t) = true

-- The timeouts of the listens in a trace.
abbrev pub listens : List (ℕ × Cmd) → List ℕ
listens [] = []
listens ((n, rng_listen_delay start timeout) ∷ cs) = timeout ∷ listens cs
listens (c ∷ cs) = listens cs

-- A call of `uwb_mac_config` hands the settings to the radio.
abbrev apply_config : List (ℕ × Cmd) → System → System
apply_config calls s = if any (λ c. is_config c.1) calls then record s { applied = s.wanted } else s

module _ (c : Codes) (second frame_filter : Bool) (inst delay : ℕ) where
  -- The timeout that the settings of the radio ask for.
  abbrev pub asked : System → ℕ
  asked s = u16 (s.applied + delay)

  -- One event, with the timeouts of its listens beside those that are asked for.
  unfoldable pub step : Event → System → System × List (ℕ × ℕ)
  step (change sem wanted) s =
      let (state, calls) = uwb_config_updated_func second frame_filter sem s.state in
      (apply_config calls (record s { state = state; wanted = wanted }), [])
  step (slot t) s =
      let (state, calls) =
        slot_cb c second frame_filter inst s.applied (record t { rx_timeout_delay = delay })
          s.state in
      (
        apply_config calls (record s { state = state }),
        map (λ timeout. (timeout, asked s)) (listens calls),
      )

  unfoldable pub run : List Event → System → System × List (ℕ × ℕ)
  run [] s = (s, [])
  run (e ∷ es) s = let (s', out) = step e s in let (s'', rest) = run es s' in (s'', out ++ rest)

  -- No timeout is kept, or it is the one that is asked for.
  pub record IsFresh (s : System) : Type 0 where
    pub kept : (s.state.timeout ≡ 0) ⊎ (s.state.timeout ≡ asked s)

  abbrev pub agree : ℕ × ℕ → Bool
  agree p = p.0 == p.1

  step-change-IsFresh :
      (sem wanted : ℕ) (s : System)
      → not (sem == 0) ≡ true
      → IsFresh s
      → IsFresh (step (change sem wanted) s).0
  unfolding step uwb_config_updated_func
  step-change-IsFresh sem wanted s h f = record { kept = ground (arith, f.kept) }

  step-slot-IsFresh :
      (t : Slot) (s : System)
      → IsFresh s
      → IsFresh (step (slot t) s).0 × (all agree (step (slot t) s).1 ≡ true)
  unfolding step slot_cb is_config
  step-slot-IsFresh t s f = (record { kept = ground (arith, f.kept) }, ground (arith, f.kept))

  -- While settings only change when the node is synchronised, every listen has the timeout that the
  -- settings of the radio ask for, if at the start no timeout is kept, or that one.
  pub run-agree :
      (es : List Event) (s : System)
      → all is_graceful es ≡ true
      → IsFresh s
      → all agree (run es s).1 ≡ true
  unfolding run step
  run-agree [] s h f = refl
  run-agree (change sem wanted ∷ es) s h f =
      let s' = (step (change sem wanted) s).0 in
      run-agree es s' (ground arith) (step-change-IsFresh sem wanted s (ground arith) f)
  run-agree (slot t ∷ es) s h f =
      let (s', out) = step (slot t) s in
      let (fresh, now) = step-slot-IsFresh t s f in
      all-append agree out (run es s').1 ∙ rw (now) (run-agree es s' h fresh)

  -- Where a timeout is kept and no change is pending, a change that comes while the node waits for the
  -- CCP is written to the radio at once, and the timeout is kept: the listen in the next slot that the
  -- CCP leaves free has that of the settings before.
  pub stale_timeout :
      (wanted : ℕ) (t : Slot) (s : System)
      → s.state.timeout ≢ 0
      → s.state.config_updated ≡ false
      → in_ccp t ≡ false
      → (run (change 0 wanted ∷ slot t ∷ []) s).1 ≡ (s.state.timeout, u16 (wanted + delay)) ∷ []
  unfolding run step uwb_config_updated_func slot_cb is_config
  stale_timeout wanted t s kept quiet free = ground arith
