-- ===== src/Streaming/Transport.antt =====
-- The stream of apps/streaming from the runs of the sender's timer, over a transport that may lose packets,
-- to the counters of the receiver.
use native.Mathlib.Nat.{add-zero, zero-add}
use uwb_apps.Prelude.{
  ℕ, zero, suc, ◌+◌, ◌<◌, ◌≡◌, ◌≢◌, refl, ap, ◌∙◌, List, [], ◌∷◌, ◌++◌, length, u8, u32, arith,
}
use uwb_apps.Streaming.{Packet, Receiver, stream_loop, stream_timer}
use uwb_apps.Streaming.Loss.{nth, packets, Delivery, done, pass, receive_all, counters_exact}

module _ (calc : List ℕ → ℕ) where
  -- What the timer gives to the transport in a series of runs, each with the chains that the kernel has.
  unfoldable pub sent : (ticks_per_sec destination : ℕ) → List ℕ → Packet → List Packet
  sent ticks destination [] p = []
  sent ticks destination (buffers ∷ runs) p =
      let (p', ps, calls) = stream_timer calc ticks destination buffers p in
      ps ++ sent ticks destination runs p'

  -- What is passed on of a series of packets, with the number of packets that are lost before one that is
  -- passed on; `gap` packets are lost just before the series.
  pub data Passes : ℕ → List Packet → List Packet → ℕ → Type 0 where
    -- nothing more comes
    rest_lost : {gap : ℕ} {ps : List Packet} → Passes gap ps [] 0
    lose :
        {gap lost : ℕ} {p : Packet} {ps qs : List Packet}
        → Passes (suc gap) ps qs lost
        → Passes gap (p ∷ ps) qs lost
    pass_on :
        {gap lost : ℕ} {p : Packet} {ps qs : List Packet}
        → gap < 256
        → Passes 0 ps qs lost
        → Passes gap (p ∷ ps) (p ∷ qs) (gap + lost)

  packets-append :
      (rest : List ℕ) (i n m : ℕ)
      → packets calc rest i n ++ packets calc rest (i + n) m ≡ packets calc rest i (n + m)
  packets-append rest i zero m = rw (add-zero, zero-add) refl
  packets-append rest i (suc n) m =
      let next : i + suc n ≡ suc i + n = omega arith in
      let sum : suc n + m ≡ suc (n + m) = omega arith in
      rw (next, sum) (ap (λ ps. nth calc rest (suc i) ∷ ps) (packets-append rest (suc i) n m))

  -- A run of the loop gives the packets that come next, and keeps its place.
  loop_lem :
      (destination r buffers i : ℕ) (rest : List ℕ) (p : Packet)
      → destination ≢ 0
      → p.index ≡ u8 i
      → p.rest ≡ rest
      → let (p', ps) = stream_loop calc destination r buffers p in
        (n : ℕ) × (ps ≡ packets calc rest i n) × (p'.index ≡ u8 (i + n)) × (p'.rest ≡ rest)
  unfolding stream_loop
  loop_lem destination zero buffers i rest p d e f = (0, refl, rw add-zero e, f)
  loop_lem destination (suc r) zero i rest p d e f = (0, refl, rw add-zero e, f)
  loop_lem destination (suc r) (suc buffers) i rest p d e f =
      let idx : u8 (p.index + 1) ≡ u8 (suc i) = omega arith in
      let index = u8 (p.index + 1) in
      let q : Packet = record p { index = index; crc = calc (index ∷ p.rest) } in
      let same : q ≡ nth calc rest (suc i) = cc in
      let (n, ps, index', rest') = loop_lem destination r buffers (suc i) rest q d idx f in
      (suc n, ground (arith, ps, same), ground (arith, index'), ground (arith, rest'))

  -- The packets of a series of runs are numbered one after the other.
  sent_lem :
      (ticks destination : ℕ) (runs : List ℕ) (i : ℕ) (rest : List ℕ) (p : Packet)
      → destination ≢ 0
      → p.index ≡ u8 i
      → p.rest ≡ rest
      → (n : ℕ) × (sent ticks destination runs p ≡ packets calc rest i n)
  unfolding sent stream_timer
  sent_lem ticks destination [] i rest p d e f = (0, refl)
  sent_lem ticks destination (buffers ∷ runs) i rest p d e f =
      let (n, ps, index, same) = loop_lem destination 18 buffers i rest p d e f in
      let p' = (stream_loop calc destination 18 buffers p).0 in
      let (m, more) = sent_lem ticks destination runs (i + n) rest p' d index same in
      (n + m, rw (ps, more) (packets-append rest i n m))

  passed :
      (rest : List ℕ) (i gap n : ℕ) {lost : ℕ} {ps qs : List Packet}
      → ps ≡ packets calc rest (i + gap) n
      → Passes gap ps qs lost
      → Delivery calc rest i lost (length qs) qs
  passed rest i gap n eq rest_lost = done
  passed rest i gap zero eq (lose ps) = cc
  passed rest i gap zero eq (pass_on near ps) = cc
  passed rest i gap (suc n) eq (lose {ps = ps'} later) =
      let next : i + suc gap ≡ suc (i + gap) = omega arith in
      let tail : ps' ≡ packets calc rest (suc (i + gap)) n = cc in
      passed rest i (suc gap) n (rw next tail) later
  passed rest i gap (suc n) eq (pass_on {p} {ps = ps'} near later) =
      let next : suc (i + gap) + 0 ≡ suc (i + gap) = omega arith in
      let tail : ps' ≡ packets calc rest (suc (i + gap)) n = cc in
      let same : p ≡ nth calc rest (suc (i + gap)) = cc in
      rw same
        (pass gap (suc (i + gap)) near refl (passed rest (suc (i + gap)) 0 n (rw next tail) later))

  -- A sender with a destination runs its timer any number of times, with any number of chains each time.
  -- The transport passes its packets on in order or loses them, fewer than 256 in a row. Then the counters
  -- of a receiver in step with the sender grow by exactly the number of packets lost before the last
  -- that came, and the number of packets that came, modulo 2^32.
  pub stream_exact :
      (ticks destination size : ℕ) (runs : List ℕ) (p : Packet) (r : Receiver) {qs : List Packet}
      {lost : ℕ}
      → destination ≢ 0
      → p.index < 256
      → r.idx ≡ p.index
      → Passes 0 (sent ticks destination runs p) qs lost
      → let r' = receive_all calc size qs r in
        (u32 r'.missed ≡ u32 (r.missed + lost)) × (u32 r'.ok ≡ u32 (r.ok + length qs))
  stream_exact ticks destination size runs p r d small step ps =
      let here : p.index ≡ u8 p.index = omega arith in
      let (n, eq) = sent_lem ticks destination runs p.index p.rest p d here refl in
      counters_exact calc size p.rest r (passed p.rest p.index 0 n (rw add-zero eq) ps)
        (step ∙ here)
