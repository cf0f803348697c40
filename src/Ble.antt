-- ===== src/Ble.antt =====
-- lib/bleprph/src/bleprph.c and gatt_svr.c: the Bluetooth peripheral. The NimBLE host is outside; its
-- return codes are arguments (0 is success), and a failed `assert` is `none`.
pub mod Links
pub mod Name
use uwb_apps.Prelude.{
  ℕ, ◌%◌, ◌^◌, take, Bool, true, false, not, List, [], ◌∷◌, ◌++◌, Option, none, some, ◌==◌,
  if◌then◌else◌,
}
use uwb_apps.Text.{Text, pad, hex_upper}

-- The flags of an advertisement: BLE_HS_ADV_F_DISC_GEN and BLE_HS_ADV_F_BREDR_UNSUP.
pub data Flag : Type 0 where
  disc_gen bredr_unsup : Flag

-- `struct ble_hs_adv_fields`, as `bleprph_advertise` fills it in; the stack fills in the power level.
pub record AdvFields : Type 0 where
  pub flags : List Flag
  pub tx_pwr_lvl_is_present : Bool
  pub name : Text
  pub name_is_complete : Bool
  pub uuids16 : List ℕ
  pub uuids16_is_complete : Bool

-- Calls into the host.
pub data Call : Type 0 where
  infer_addr adv_start conn_find ensure_addr count_cfg add_svcs adv_stop : Call
  adv_set_fields : AdvFields → Call
  -- the callbacks of `ble_hs_cfg` are set
  set_callbacks : Call
  -- `ble_svc_gap_device_name_set`
  set_name : Text → Call

-- The name that the host has for the device, and the return codes of the three calls of
-- `bleprph_advertise`.
pub record AdvCodes : Type 0 where
  pub device_name : Text
  pub infer_rc : ℕ
  pub fields_rc : ℕ
  pub start_rc : ℕ

-- GATT_SVR_SVC_ALERT_UUID
abbrev pub alert_uuid : ℕ
alert_uuid = 0x1811

abbrev pub adv_fields : Text → AdvFields
adv_fields name = record {
  flags = disc_gen ∷ bredr_unsup ∷ [];
  tx_pwr_lvl_is_present = true;
  name = name;
  name_is_complete = true;
  uuids16 = alert_uuid ∷ [];
  uuids16_is_complete = true;
}

-- `bleprph_advertise`: each step needs the one before.
unfoldable pub advertise : AdvCodes → List Call
advertise c =
    infer_addr
    ∷ (if not (c.infer_rc == 0)
        then []
        else adv_set_fields (adv_fields c.device_name)
          ∷ (if not (c.fields_rc == 0) then [] else adv_start ∷ []))

-- The GAP events; `connect`, `conn_update` and `enc_change` carry a status or none that is read, and
-- the return code of `ble_gap_conn_find`.
pub data GapEvent : Type 0 where
  connect : ℕ → ℕ → GapEvent
  disconnect : GapEvent
  conn_update : ℕ → GapEvent
  adv_complete : GapEvent
  enc_change : ℕ → GapEvent
  subscribe mtu other : GapEvent

-- `bleprph_gap_event`: the new `g_bleprph_connected` and the calls.
unfoldable pub gap_event : AdvCodes → GapEvent → Bool → Option (Bool × List Call)
unfolding advertise
gap_event c (connect status find_rc) connected =
    if status == 0
    then (if find_rc == 0 then some (true, conn_find ∷ []) else none)
    else some (connected, advertise c)
gap_event c disconnect connected = some (false, advertise c)
gap_event c (conn_update find_rc) connected =
    if find_rc == 0 then some (connected, conn_find ∷ []) else none
gap_event c adv_complete connected = some (connected, advertise c)
gap_event c (enc_change find_rc) connected =
    if find_rc == 0 then some (connected, conn_find ∷ []) else none
gap_event c subscribe connected = some (connected, [])
gap_event c mtu connected = some (connected, [])
gap_event c other connected = some (connected, [])

-- `bleprph_on_sync`
unfoldable pub on_sync : AdvCodes → ℕ → Option (List Call)
unfolding advertise
on_sync c ensure_rc = if ensure_rc == 0 then some (ensure_addr ∷ advertise c) else none

-- `ble_is_connected`; `enabled` is BLEPRPH_ENABLED.
unfoldable pub ble_is_connected : Bool → Bool → ℕ
ble_is_connected enabled connected = if enabled then (if connected then 1 else 0) else 0

-- `gatt_svr_init`: its return code and its calls.
unfoldable pub gatt_svr_init : ℕ → ℕ → ℕ × List Call
gatt_svr_init count_rc add_rc =
    if not (count_rc == 0) then (count_rc, count_cfg ∷ []) else (add_rc, count_cfg ∷ add_svcs ∷ [])

-- `gatt_svr_register_cb` asserts that an entry is a service, a characteristic or a descriptor.
pub data RegisterOp : Type 0 where
  svc chr dsc unknown : RegisterOp

unfoldable pub gatt_svr_register_cb : RegisterOp → Bool
gatt_svr_register_cb unknown = false
gatt_svr_register_cb _ = true

-- The name of the device, from BLE_PREFIX and the low 32 bits of the identity, in an array of 32 bytes.
unfoldable pub ble_name : Text → ℕ → Text
ble_name prefix ble_id = take 31 (prefix ++ b'-' ∷ pad 4 (hex_upper (ble_id % 2 ^ 32)))

-- `ble_init`
unfoldable pub ble_init : Text → ℕ → ℕ → ℕ → ℕ → Option (List Call)
unfolding gatt_svr_init
ble_init prefix count_rc add_rc name_rc ble_id =
    let (rc, calls) = gatt_svr_init count_rc add_rc in
    if rc == 0
    then (if name_rc == 0
        then some (set_callbacks ∷ (calls ++ set_name (ble_name prefix ble_id) ∷ []))
        else none)
    else none

-- `ble_stop`
unfoldable pub ble_stop : List Call
ble_stop = adv_stop ∷ []
