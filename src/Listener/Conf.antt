-- ===== src/Listener/Conf.antt =====
-- The configuration of apps/listener/src/main.c: the handler `lstnr` of the settings subsystem, with
-- the settings of the build for a network (ETH_0) where `eth` is set.
use text.Mathlib.Text.{◌==◌ as str_eq}
use Prim.Native.String.{String}
use uwb_apps.Prelude.{ℕ, ◌+◌, Bool, ◌&&◌, List, [], ◌∷◌, Option, none, some, ltb, if◌then◌else◌}

-- `lstnr_config`: the stored texts.
pub record Config : Type 0 where
  pub acc_samples : String
  pub verbose : String
  pub udp_tx_addr : String
  pub udp_tx_port : String

-- The keys that the handler tells apart, by `strcmp` with `argv[0]`.
pub data Key : Type 0 where
  acc_samples_key verbose_key udp_tx_addr_key udp_tx_port_key : Key

unfoldable pub find_key : Bool → List String → Option Key
find_key eth [] = none
find_key eth (a ∷ []) =
    if str_eq a "acc_samples"
    then some acc_samples_key
    else if str_eq a "verbose"
    then some verbose_key
    else if eth && str_eq a "udp_tx_addr"
    then some udp_tx_addr_key
    else if eth && str_eq a "udp_tx_port"
    then some udp_tx_port_key
    else none
find_key eth (a ∷ b ∷ rest) = none

abbrev pub read_field : Key → Config → String
read_field acc_samples_key c = c.acc_samples
read_field verbose_key c = c.verbose
read_field udp_tx_addr_key c = c.udp_tx_addr
read_field udp_tx_port_key c = c.udp_tx_port

abbrev pub write_field : Key → String → Config → Config
write_field acc_samples_key v c = record c { acc_samples = v }
write_field verbose_key v c = record c { verbose = v }
write_field udp_tx_addr_key v c = record c { udp_tx_addr = v }
write_field udp_tx_port_key v c = record c { udp_tx_port = v }

-- The size of the `char` array of a key.
abbrev pub field_size : Key → ℕ
field_size udp_tx_addr_key = 16
field_size _ = 8

-- `lstnr_get`
unfoldable pub lstnr_get : Bool → List String → Config → Option String
lstnr_get eth argv c = elim (find_key eth argv) [ none ↦ none | some k ↦ some (read_field k c) ]

-- `lstnr_set`. `fits size v` is whether CONF_VALUE_SET can store a text in an array; else it returns
-- `einval` and stores nothing. The result is the return code.
unfoldable pub lstnr_set :
    (ℕ → String → Bool) → ℕ → ℕ → Bool → List String → String → Config → Config × ℕ
lstnr_set fits einval enoent eth argv v c = elim (find_key eth argv) [
  | none ↦ (c, enoent)
  | some k ↦ if fits (field_size k) v then (write_field k v c, 0) else (c, einval)
]

-- `local_conf`, the network settings, and how often `uwb_config_updated` was called.
pub record Local : Type 0 where
  pub acc_samples_to_load : ℕ
  pub verbose : ℕ
  pub udp_tx_port : ℕ
  pub udp_tx_addr : ℕ
  pub updates : ℕ

-- What the build and the libraries give to `lstnr_commit`: CIR_ENABLED and CIR_MAX_SIZE, what
-- `conf_value_from_str` makes of a text (`none` leaves the variable), and `mn_inet_pton`.
pub record CommitEnv : Type 0 where
  pub cir : Bool
  pub cir_max : ℕ
  pub parse : String → Option ℕ
  pub pton : String → Option ℕ

abbrev pub parsed : Option ℕ → ℕ → ℕ
parsed none old = old
parsed (some n) old = n

-- `lstnr_commit`: an address that does not parse ends it early, and nothing is sent to the radios.
unfoldable pub lstnr_commit : CommitEnv → Bool → Config → Local → Local
lstnr_commit e eth c l =
    let wanted = parsed (e.parse c.acc_samples) l.acc_samples_to_load in
    let samples = if e.cir && ltb e.cir_max wanted then e.cir_max else wanted in
    let l' = record l {
      acc_samples_to_load = samples;
      verbose = parsed (e.parse c.verbose) l.verbose;
    } in
    if eth
    then elim (e.pton c.udp_tx_addr) [
      | none ↦ l'
      | some address ↦ record l' {
        udp_tx_addr = address;
        udp_tx_port = parsed (e.parse c.udp_tx_port) l.udp_tx_port;
        updates = l.updates + 1;
      }
    ]
    else record l' { updates = l.updates + 1 }

-- `lstnr_export`: the names and texts that are exported, in order.
unfoldable pub lstnr_export : Bool → Config → List (String × String)
lstnr_export eth c =
    ("lstnr/acc_samples", c.acc_samples)
    ∷ ("lstnr/verbose", c.verbose)
    ∷ (if eth
        then ("lstnr/udp_tx_addr", c.udp_tx_addr) ∷ ("lstnr/udp_tx_port", c.udp_tx_port) ∷ []
        else [])
