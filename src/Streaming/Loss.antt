-- ===== src/Streaming/Loss.antt =====
-- The stream of apps/streaming from the sender's loop to the receiver's counters, over a transport
-- that may lose packets.
use uwb_apps.Prelude.{ℕ, zero, suc, ◌+◌, ◌<◌, ◌≡◌, List, [], ◌∷◌, u8, u32, sub_u8, arith}
use uwb_apps.Streaming.{Packet, Receiver, transport_cb}

-- Packet `i` of a stream that starts after index 0 with the payload `rest`.
abbrev pub nth : (List ℕ → ℕ) → List ℕ → ℕ → Packet
nth calc rest i = record { crc = calc (u8 i ∷ rest); index = u8 i; rest = rest }

-- The packets of a run of `n` rounds, from the one after packet `i`.
abbrev pub packets : (List ℕ → ℕ) → List ℕ → ℕ → ℕ → List Packet
packets calc rest i zero = []
packets calc rest i (suc n) = nth calc rest (suc i) ∷ packets calc rest (suc i) n

-- What the transport delivers: each packet is passed on or lost, the lost ones counted.
pub data Delivery (calc : List ℕ → ℕ) (rest : List ℕ) : ℕ → ℕ → ℕ → List Packet → Type 0 where
  -- so far packet `i` is the last that was passed on
  done : {i : ℕ} → Delivery calc rest i 0 0 []
  -- `gap` packets are lost before the next one
  pass :
      {i lost n : ℕ} {ps : List Packet} (gap : ℕ) (j : ℕ)
      → gap < 256
      → j ≡ suc (i + gap)
      → Delivery calc rest j lost n ps
      → Delivery calc rest i (gap + lost) (suc n) (nth calc rest j ∷ ps)

abbrev pub receive_all : (List ℕ → ℕ) → ℕ → List Packet → Receiver → Receiver
receive_all calc size [] r = r
receive_all calc size (p ∷ ps) r = receive_all calc size ps (transport_cb calc size size p r).0

-- One packet after a gap.
transport_cb-gap :
    (calc : List ℕ → ℕ) (size : ℕ) (rest : List ℕ) (i gap j : ℕ) (r : Receiver)
    → gap < 256
    → j ≡ suc (i + gap)
    → r.idx ≡ u8 i
    → let r' = (transport_cb calc size size (nth calc rest j) r).0 in
      (r'.idx ≡ u8 j) × (u32 r'.missed ≡ u32 (r.missed + gap)) × (u32 r'.ok ≡ u32 (r.ok + 1))
unfolding transport_cb
transport_cb-gap calc size rest i gap j r h eq e =
    let near : u8 (r.idx + 1) ≡ u8 (suc i) = omega arith in
    let far : sub_u8 (u8 j) (u8 (r.idx + 1)) ≡ gap = omega arith in
    (ground arith, ground (arith, near, far), ground arith)

-- The receiver counts what was lost and what came: if it is in step with the sender, and fewer than
-- 256 packets are lost in a row, its counters grow by exactly the numbers of packets lost before the
-- last one that came and of packets that came, modulo 2^32.
pub counters_exact :
    (calc : List ℕ → ℕ) (size : ℕ) (rest : List ℕ) {i lost n : ℕ} {ps : List Packet} (r : Receiver)
    → Delivery calc rest i lost n ps
    → r.idx ≡ u8 i
    → (u32 (receive_all calc size ps r).missed ≡ u32 (r.missed + lost))
      × (u32 (receive_all calc size ps r).ok ≡ u32 (r.ok + n))
counters_exact calc size rest r done e = (omega arith, omega arith)
counters_exact calc size rest {i} r (pass {lost} {n} gap j h eq d) e =
    let (idx, missed, ok) = transport_cb-gap calc size rest i gap j r h eq e in
    let r' = (transport_cb calc size size (nth calc rest j) r).0 in
    let (missed', ok') = counters_exact calc size rest r' d idx in
    (omega (arith, missed, missed'), omega (arith, ok, ok'))
