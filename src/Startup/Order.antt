-- ===== src/Startup/Order.antt =====
-- The order of the calls in the start-ups, over all the applications.
pub mod Slots
pub mod Settings
use uwb_apps.Prelude.{
  ℕ, zero, suc, ◌+◌, ◌≡◌, refl, Bool, true, false, not, ◌&&◌, ◌||◌, List, [], ◌∷◌, ◌++◌, count_if,
  if◌then◌else◌, ◌==◌, arith, ◌-◌,
}
use uwb_apps.Text.{Text}
use uwb_apps.Twr.Nranges
use uwb_apps.Rtdoa.Node
use uwb_apps.Rtdoa.Tag
use uwb_apps.Rtdoa.Sensors
use uwb_apps.Streaming
use uwb_apps.Radio.{start_rx}
use uwb_apps.Startup.{
  Setup, radio, init_pool, init_queue, register_uwbcfg, register_conf, load_conf, append_interface,
  append_extension, start_ccp, init_event, assign_slot, CcpRole, ccp_master, ccp_slave, ccp_relay,
  Device, Single, assign_all, calls, set_backhaul_role, init_callout, reset_callout, fill_test,
  set_field, rxdiag_enable,
}
use uwb_apps.Startup.Ranging.{Build, nranges_main, node_main, tag_main, aloha_main, each_slot, udev}
use uwb_apps.Startup.Location.{bypass, rtdoa_node_main, rtdoa_tag_main}
use uwb_apps.Startup.Others.{
  StreamBuild, test_loop, streaming_main, tdoa_main, ota_master_main, ota_slave_main, ListenerBuild,
  listener_main,
}

-- The applications, each with what its build fixes; apps/listener with its second radio.
pub data App : Type 0 where
  nranges : Build → Bool → ℕ × ℕ → App
  twr_node : Build → Bool → App
  twr_tag : Build → App
  aloha : Build → Bool → ℕ → ℕ → App
  rtdoa_node : ℕ → Bool → App
  rtdoa_tag : ℕ → Bool → ℕ → App
  streaming : StreamBuild → App
  tdoa_tag : Bool → ℕ → App
  ota_master : Bool → Text → ℕ → App
  ota_slave : Text → ℕ → App
  listener : ListenerBuild → Bool → Device → App

abbrev pub Handler : App → Type 0
Handler (nranges b survey slots) = Nranges.Handler
Handler (rtdoa_node nslots esp) = Node.Handler
Handler (rtdoa_tag nslots esp rate) = Tag.Handler
Handler (streaming b) = Streaming.Handler
Handler _ = Single

-- `main` of the application.
abbrev pub start : (a : App) → Device → List (Setup (Handler a))
start (nranges b survey slots) d = nranges_main b survey slots d
start (twr_node b dual) d = node_main b dual d
start (twr_tag b) d = tag_main b d
start (aloha b ack ticks address) d = aloha_main b ack ticks address d
start (rtdoa_node nslots esp) d = rtdoa_node_main nslots esp d
start (rtdoa_tag nslots esp rate) d = rtdoa_tag_main nslots esp rate d
start (streaming b) d = streaming_main b d
start (tdoa_tag ble ticks) d = (tdoa_main ble ticks d).0
start (ota_master ble file ticks) d = ota_master_main ble file ticks d
start (ota_slave file ticks) d = ota_slave_main file ticks d
start (listener b rx_diag d1) d = listener_main b rx_diag d d1

module _ {H : Type 0} where
  -- From here on callbacks come: a slot has one, or a radio receives.
  abbrev pub is_active : Setup H → Bool
  is_active (assign_slot i h) = true
  is_active (radio n start_rx) = true
  is_active _ = false

  abbrev pub is_load : Setup H → Bool
  is_load load_conf = true
  is_load _ = false

  abbrev pub is_register : Setup H → Bool
  is_register register_uwbcfg = true
  is_register register_conf = true
  is_register _ = false

  -- What the callbacks rely on: settings, interfaces, the event of a completion, a pool and a queue.
  abbrev pub is_preparation : Setup H → Bool
  is_preparation register_uwbcfg = true
  is_preparation register_conf = true
  is_preparation load_conf = true
  is_preparation (append_interface n) = true
  is_preparation append_extension = true
  is_preparation init_event = true
  is_preparation init_pool = true
  is_preparation init_queue = true
  is_preparation _ = false

  -- After a call of `first`, if there was one, comes none of `next`.
  abbrev pub none_after : (first next : Setup H → Bool) → Bool → List (Setup H) → Bool
  none_after first next seen [] = true
  none_after first next seen (c ∷ cs) =
      not (seen && next c) && none_after first next (seen || first c) cs

  abbrev pub ccp_roles : List (Setup H) → List CcpRole
  ccp_roles [] = []
  ccp_roles (start_ccp r ∷ cs) = r ∷ ccp_roles cs
  ccp_roles (c ∷ cs) = ccp_roles cs

  pub count-assign_all :
      (p : Setup H → Bool)
      → ((i : ℕ) (h : H) → p (assign_slot i h) ≡ false)
      → (xs : List (ℕ × H)) (ys : List (Setup H)) → count_if p (assign_all xs ++ ys) ≡ count_if p ys
  count-assign_all p h [] ys = refl
  count-assign_all p h ((i, c) ∷ xs) ys = ground (arith, h i c, count-assign_all p h xs ys)

  pub none_after-seen :
      (first next : Setup H → Bool) (seen : Bool) (ys : List (Setup H))
      → none_after first next true ys ≡ true
      → none_after first next seen ys ≡ true
  none_after-seen first next true ys h = h
  none_after-seen first next false [] h = refl
  none_after-seen first next false (c ∷ cs) h =
      none_after-seen first next (first c) cs (ground arith)

  pub none_after-slots :
      (seen : Bool) (xs : List (ℕ × H)) (ys : List (Setup H))
      → none_after is_active is_preparation true ys ≡ true
      → none_after is_active is_preparation seen (assign_all xs ++ ys) ≡ true
  none_after-slots seen [] ys h = none_after-seen is_active is_preparation seen ys h
  none_after-slots true (x ∷ xs) ys h = none_after-slots true xs ys h
  none_after-slots false (x ∷ xs) ys h = none_after-slots true xs ys h

  pub none_after-load :
      (seen : Bool) (xs : List (ℕ × H)) (ys : List (Setup H))
      → none_after is_load is_register seen (assign_all xs ++ ys)
        ≡ none_after is_load is_register seen ys
  none_after-load true [] ys = refl
  none_after-load false [] ys = refl
  none_after-load true (x ∷ xs) ys = none_after-load true xs ys
  none_after-load false (x ∷ xs) ys = none_after-load false xs ys

  pub ccp_roles-assign_all :
      (xs : List (ℕ × H)) (ys : List (Setup H)) → ccp_roles (assign_all xs ++ ys) ≡ ccp_roles ys
  ccp_roles-assign_all [] ys = refl
  ccp_roles-assign_all (x ∷ xs) ys = ccp_roles-assign_all xs ys

  -- What assigned slots leave of the counts and of the order of the settings.
  pub settings-assign_all :
      (xs : List (ℕ × H)) (ys : List (Setup H))
      → (count_if is_register (assign_all xs ++ ys) ≡ count_if is_register ys)
        × (count_if is_load (assign_all xs ++ ys) ≡ count_if is_load ys)
        × ((seen : Bool)
            → none_after is_load is_register seen (assign_all xs ++ ys)
              ≡ none_after is_load is_register seen ys)
  settings-assign_all xs ys = (
    count-assign_all is_register (λ i h. refl) xs ys,
    count-assign_all is_load (λ i h. refl) xs ys,
    (λ seen. none_after-load seen xs ys),
  )

-- What stands behind the slots in apps/rtdoa_tag and in apps/streaming.
abbrev pub after_slots : Bool → ℕ → List (Setup Tag.Handler)
after_slots esp rate =
    start_ccp ccp_slave
    ∷ set_backhaul_role 1
    ∷ init_callout
    ∷ (calls (Sensors.init_timer rate) ++ (bypass esp ++ []))

abbrev pub after_stream : StreamBuild → List (Setup Streaming.Handler)
after_stream b =
    fill_test (test_loop b.test_size 0)
    ∷ ((if b.transport_role == 1 then init_callout ∷ reset_callout b.ticks ∷ [] else []) ++ [])
