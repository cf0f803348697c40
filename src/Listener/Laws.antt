-- ===== src/Listener/Laws.antt =====
-- What holds of apps/listener: its settings, and the chains that its callback queues.
use Prim.Native.String.{String}
use uwb_apps.Prelude.{
  ℕ, zero, suc, ◌+◌, ◌*◌, ◌^◌, ◌≤◌, ◌<◌, ◌≡◌, ◌≢◌, refl, Bool, true, false, not, ◌&&◌, ◌||◌, List,
  [], ◌∷◌, ◌++◌, length, length-append, map, take, get_elem?, inl, inr, Option, none, some, u16,
  ◌==◌, if◌then◌else◌, ap, arith, Bool-cases, Option-cases,
}
use uwb_apps.Listener.Conf.{
  Config, Key, acc_samples_key, verbose_key, udp_tx_addr_key, udp_tx_port_key, find_key, read_field,
  write_field, field_size, lstnr_get, lstnr_set, Local, CommitEnv, lstnr_commit,
}
use uwb_apps.Listener.Structs.{State, RadioDiag, Env, Write, cir, diag}
use uwb_apps.Listener.Receive.{
  diag_loop, cir_loop, measure, message_of, fill_and_queue, rx_complete_cb, diag_read_offset,
  cir_read_offset,
}

abbrev pub is_some {ℓ} : {A : Type ℓ} → Option A → Bool
is_some none = false
is_some (some a) = true

abbrev pub key_number : Key → ℕ
key_number acc_samples_key = 0
key_number verbose_key = 1
key_number udp_tx_addr_key = 2
key_number udp_tx_port_key = 3

read-write :
    (j k : Key) (v : String) (c : Config)
    → read_field j (write_field k v c)
      ≡ (if key_number j == key_number k then v else read_field j c)
read-write acc_samples_key acc_samples_key v c = refl
read-write acc_samples_key k v c = refl
read-write verbose_key acc_samples_key v c = refl
read-write verbose_key k v c = refl
read-write udp_tx_addr_key acc_samples_key v c = refl
read-write udp_tx_addr_key k v c = refl
read-write udp_tx_port_key acc_samples_key v c = refl
read-write udp_tx_port_key k v c = refl

-- A text that fits the array of its key is stored with return code 0, and read back under that key;
-- under every other key the text read is the one from before.
pub get-set :
    (fits : ℕ → String → Bool) (einval enoent : ℕ) (eth : Bool) (argv argv' : List String)
    (v : String) (c : Config) (k j : Key)
    → find_key eth argv ≡ some k
    → find_key eth argv' ≡ some j
    → fits (field_size k) v ≡ true
    → let (c', rc) = lstnr_set fits einval enoent eth argv v c in
      (rc ≡ 0)
      × (lstnr_get eth argv' c'
          ≡ (if key_number j == key_number k then some v else lstnr_get eth argv' c))
unfolding lstnr_set lstnr_get
get-set fits einval enoent eth argv argv' v c k j known known' ok =
    (ground arith, ground (arith, read-write j k v c))

-- A set that does not return 0 changes nothing, and its code tells why: OS_ENOENT where the key is
-- unknown, and the code of CONF_VALUE_SET where the text does not fit.
set_refused :
    (fits : ℕ → String → Bool) (einval enoent : ℕ) (eth : Bool) (argv : List String) (v : String)
    (c : Config)
    → (lstnr_set fits einval enoent eth argv v c).1 ≢ 0
    → ((lstnr_set fits einval enoent eth argv v c).0 ≡ c)
      × ((lstnr_set fits einval enoent eth argv v c).1
          ≡ (if is_some (find_key eth argv) then einval else enoent))
unfolding lstnr_set
set_refused fits einval enoent eth argv v c bad = (ground arith, ground arith)

-- With impulse responses enabled, a commit never asks for more samples than an impulse response has, and tells the radios unless the
-- network is built in and its address does not parse.
commit_bounds :
    (e : CommitEnv) (eth : Bool) (c : Config) (l : Local)
    → e.cir ≡ true
    → let l' = lstnr_commit e eth c l in
      (l'.acc_samples_to_load ≤ e.cir_max)
      × (l'.updates
          ≡ (if eth && not (is_some (e.pton c.udp_tx_addr)) then l.updates else l.updates + 1))
unfolding lstnr_commit
commit_bounds e eth c l on = (ground arith, ground arith)

-- There is a chain for a frame of the last radio that both have, and all its parts are copied.
abbrev pub is_filled : Env → Bool
is_filled e =
    (not e.dual || (e.is_last && e.same_data))
    && e.alloc
    && (e.frame_rc == 0)
    && is_some (measure e (u16 e.frame_len))

-- The chains that one call loses: one, where it was filled and could not be queued.
abbrev pub lost_chains : Env → ℕ
lost_chains e = if is_filled e && not (e.put_rc == 0) then 1 else 0

fill_and_queue-chains :
    (e : Env) (s : State)
    → let s' = fill_and_queue e s in
      s'.held + length s.queue
      ≡ s.held
        + length s'.queue
        + (if (e.frame_rc == 0) && is_some (measure e (u16 e.frame_len)) && not (e.put_rc == 0)
            then 1
            else 0)
unfolding fill_and_queue
fill_and_queue-chains e s = elim (Option-cases (measure e (u16 e.frame_len))) [
  | inl none_copied ↦ rw none_copied (ground arith)
  | inr ((ws, ts, end), copied) ↦
      rw copied (ground (arith, length-append s.queue (message_of e ws ts end ∷ [])))
]

-- `rx_complete_cb` on every branch: the chains taken from the pool and those in the queue grow alike,
-- but for the chain that a failed `os_mqueue_put` loses.
pub rx_complete_cb-chains :
    (e : Env) (s : State)
    → let s' = (rx_complete_cb e s).0 in
      s'.held + length s.queue ≡ s.held + length s'.queue + lost_chains e
unfolding rx_complete_cb
rx_complete_cb-chains e s = ground (arith, fill_and_queue-chains e s)

-- Writes laid one behind the other from an offset.
pub Laid : ℕ → List Write → Type 0
Laid at [] = Unit
Laid at (w ∷ ws) = (w.offset ≡ at) × Laid (at + w.size) ws

abbrev pub rxd_total : List RadioDiag → ℕ
rxd_total [] = 0
rxd_total (r ∷ rs) = r.rxd_len + rxd_total rs

-- What the loop over the radios gives from an offset: the diagnostics one behind the other, the
-- offset behind the last of them, and a write and a time stamp for every radio.
pub LaidOut : ℕ → List RadioDiag → Option (List Write × List ℕ × ℕ) → Type 0
LaidOut at rs none = Unit
LaidOut at rs (some (ws, ts, end)) =
    Laid at ws × (end ≡ at + rxd_total rs) × (length ts ≡ length rs) × (length ws ≡ length rs)

laid_cons :
    (i at : ℕ) (r : RadioDiag) (rs : List RadioDiag) (rest : Option (List Write × List ℕ × ℕ))
    → LaidOut (at + r.rxd_len) rs rest
    → LaidOut at (r ∷ rs) (elim rest [
      | none ↦ none
      | some (ws, ts, end) ↦ some (
        record { part = diag i; offset = at; size = r.rxd_len } ∷ ws,
        (if r.lde_error then 0 else r.rxtimestamp) ∷ ts,
        end,
      )
    ])
unfolding Laid LaidOut
laid_cons i at r rs none laid = tt
laid_cons i at r rs (some (ws, ts, end)) (laid, last, stamps, writes) =
    ((refl, laid), omega (arith, last), ap suc stamps, ap suc writes)

first_offset :
    (at : ℕ) (r : RadioDiag) (rs : List RadioDiag) (ws xs : List Write) (ts : List ℕ) (end : ℕ)
    → LaidOut at (r ∷ rs) (some (ws, ts, end))
    → map (λ w. w.offset) (take 1 (ws ++ xs)) ≡ at ∷ []
unfolding Laid LaidOut
first_offset at r rs [] xs ts end (laid, last, stamps, writes) = ground (arith, writes)
first_offset at r rs (w ∷ ws) xs ts end ((here, laid), last, stamps, writes) = rw here refl

-- As long as the offsets fit 16 bits, the loop over the radios, where all its copies succeed, lays the
-- diagnostics one behind the other from the offset that it is given, ends behind the last, and gives a
-- write and a time stamp for every radio.
diag_loop-LaidOut :
    (i at : ℕ) (rs : List RadioDiag)
    → at + rxd_total rs < 2 ^ 16
    → LaidOut at rs (diag_loop i at rs)
unfolding diag_loop Laid LaidOut
diag_loop-LaidOut i at [] fit = (tt, omega arith, refl, refl)
diag_loop-LaidOut i at (r ∷ rs) fit =
    let here : u16 (at + r.rxd_len) ≡ at + r.rxd_len = omega (arith, fit) in
    let ih = diag_loop-LaidOut (suc i) (at + r.rxd_len) rs (omega (arith, fit)) in
    rw here (elim (Bool-cases (r.copy_rc == 0)) [
      | inl copied ↦ rw copied (laid_cons i at r rs (diag_loop (suc i) (at + r.rxd_len) rs) ih)
      | inr failed ↦ rw failed tt
    ])

pub get_elem?-cir_loop :
    (n i dlen size j : ℕ)
    → j < n
    → get_elem? (cir_loop n i dlen size) j
      ≡ some (record { part = cir (i + j); offset = dlen + (i + j) * size; size = size })
unfolding cir_loop
get_elem?-cir_loop zero i dlen size j lt = ground arith
get_elem?-cir_loop (suc n) i dlen size zero lt = ground arith
get_elem?-cir_loop (suc n) i dlen size (suc j) lt =
    let ih = get_elem?-cir_loop n (suc i) dlen size j (omega (arith, lt)) in
    let next : suc i + j ≡ i + suc j = omega arith in rw next at ih

-- In a build without the boards, a message is written from the frame at offset 0 on, then the
-- diagnostics of the first radio at `diag_offset`. `process_rx_data_queue` looks for these at another
-- offset, unless the frame is empty, and takes the first impulse response from where they are.
pub diag_misread :
    (e : Env) (r : RadioDiag) (rs : List RadioDiag) (ws : List Write) (ts : List ℕ) (end : ℕ)
    → e.boards ≡ none
    → e.radios ≡ r ∷ rs
    → u16 e.frame_len + rxd_total (r ∷ rs) < 2 ^ 16
    → measure e (u16 e.frame_len) ≡ some (ws, ts, end)
    → u16 e.frame_len ≢ 0
    → let m = message_of e ws ts end in
      (map (λ w. w.offset) (take 2 m.writes) ≡ 0 ∷ m.diag_offset ∷ [])
      × (diag_read_offset m ≢ m.diag_offset)
      × (cir_read_offset e.cir_size 0 m ≡ m.diag_offset)
unfolding message_of diag_read_offset cir_read_offset measure
diag_misread e r rs ws ts end none_there radios fit eq some_data =
    let eq' = rw (none_there, radios) at eq in
    let laid = rw eq' at (diag_loop-LaidOut 0 (u16 e.frame_len) (r ∷ rs) fit) in
    (
      ap (λ xs. 0 ∷ xs) (first_offset (u16 e.frame_len) r rs ws _ ts end laid),
      omega (arith, some_data),
      omega arith,
    )
