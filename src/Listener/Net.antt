-- ===== src/Listener/Net.antt =====
-- The network in apps/listener/src/main.c, in a build with ETH_0: `net_test_readable`, which writes what
-- comes in to the console, and `lwip_nif_up`.
use uwb_apps.Prelude.{
  take-all, ℕ, zero, suc, ◌+◌, ◌-◌, ◌≤◌, ◌<◌, ◌≡◌, refl, ap, ◌∙◌, Bool, true, false, List, [], ◌∷◌,
  ◌++◌, length, take, drop, Option, none, some, ltb, leb, ◌==◌, if◌then◌else◌, arith, Bool-cases,
  inl, inr,
}
use Prim.Native.Nat.{min}
use uwb_apps.Prelude.Int.{ℤ, pos}

-- `sizeof(buf)`
abbrev pub buf_size : ℕ
buf_size = 32

-- How a call ends: with a result, with a failed assert, with bytes past the end of `buf` overwritten,
-- which leaves the rest undefined, or with the fuel.
pub data Outcome (A : Type 0) : Type 0 where
  done : A → Outcome A
  assert_failed overrun out_of_fuel : Outcome A

-- What `net_test_readable` does: the pieces that it writes to the console, and the chains that it frees.
pub record Echo : Type 0 where
  pub written : List (List ℕ)
  pub freed : ℕ

-- `(len-off < sizeof(buf))? len-off : sizeof(buf)`
abbrev pub to_read : ℕ → ℕ → ℕ
to_read off len = if ltb (len - off) buf_size then len - off else buf_size

-- `copydata off len m` is what `os_mbuf_copydata` leaves in `buf`. It writes as many of the `len` bytes
-- as the chain has from `off` on.
module _ (copydata : ℕ → ℕ → List ℕ → List ℕ) where
  -- The loop, with the turns that are left. Each copy asks for `len` bytes.
  unfoldable pub echo_loop : ℕ → (off len : ℕ) → List ℕ → Outcome (List (List ℕ))
  echo_loop zero off len m = out_of_fuel
  echo_loop (suc fuel) off len m =
      let n = to_read off len in
      let rest = echo_loop fuel (off + n) len m in
      if ltb off len
      then (if ltb buf_size (min len (length m - off)) then overrun else elim rest [
        | done ws ↦ done (take n (copydata off len m) ∷ ws)
        | assert_failed ↦ assert_failed
        | overrun ↦ overrun
        | out_of_fuel ↦ out_of_fuel
      ])
      else done []

  -- `net_test_readable`, by the return code of `mn_recvfrom` and the data it gives.
  unfoldable pub net_test_readable : ℕ → ℕ → Option (List ℕ) → Outcome Echo
  net_test_readable fuel rc m =
      if rc == 0
      then elim m [
        | none ↦ done (record { written = []; freed = 0 })
        | some bytes ↦ elim (echo_loop fuel 0 (length bytes) bytes) [
          | done ws ↦ done (record { written = ws; freed = 1 })
          | assert_failed ↦ assert_failed
          | overrun ↦ overrun
          | out_of_fuel ↦ out_of_fuel
        ]
      ]
      else assert_failed

  -- What `os_mbuf_copydata` does: the bytes of the chain from `off` on, as many as there are.
  abbrev pub IsCopy : Type 0
  IsCopy =
      (off len n : ℕ) (m : List ℕ)
      → n ≤ len
      → off + n ≤ length m
      → take n (copydata off len m) ≡ take n (drop off m)

  echo_loop-end :
      (fuel off len : ℕ) (m : List ℕ) → len ≤ off → echo_loop (suc fuel) off len m ≡ done []
  unfolding echo_loop
  echo_loop-end fuel off len m h = ground (arith, h)

  -- A chain of 1 to 32 bytes takes one turn.
  echo_loop-short :
      IsCopy
      → (fuel : ℕ) (m : List ℕ) → 0 < length m
      → length m ≤ buf_size
      → echo_loop (suc (suc fuel)) 0 (length m) m ≡ done (m ∷ [])
  unfolding echo_loop
  echo_loop-short copy fuel m some_bytes few =
      let size = to_read 0 (length m) in
      let all_of : size ≡ length m = ground (arith, few) in
      let rest = echo_loop-end fuel (0 + size) (length m) m (omega (arith, all_of)) in
      let piece = copy 0 (length m) (length m) m (omega arith) (omega arith) in
      let more : ltb 0 (length m) ≡ true = ground (arith, some_bytes) in
      let within : ltb buf_size (min (length m) (length m - 0)) ≡ false = ground (arith, few) in
      let text : take size (copydata 0 (length m) m) ≡ m =
        ap (λ i. take i (copydata 0 (length m) m)) all_of
        ∙ piece
        ∙ take-all (length m) m (omega arith) in
      rw (more, within, rest, text) refl

  -- A longer one overruns `buf` at once.
  echo_loop-long :
      (fuel : ℕ) (m : List ℕ) → buf_size < length m → echo_loop (suc fuel) 0 (length m) m ≡ overrun
  unfolding echo_loop
  echo_loop-long fuel m long = ground (arith, long)

  -- The pieces of up to 32 bytes: one, or none.
  abbrev pub pieces : List ℕ → List (List ℕ)
  pieces [] = []
  pieces (x ∷ m) = (x ∷ m) ∷ []

  -- With more fuel than there are bytes, and a copy that brings the bytes that are there, `net_test_readable`
  -- ends: of up to 32 bytes it writes exactly these to the console, and frees the chain. More than 32
  -- bytes overrun `buf` at the first copy, which asks for the length of the whole chain.
  pub echoed :
      IsCopy
      → (fuel : ℕ) (m : List ℕ) → length m < fuel
      → net_test_readable fuel 0 (some m) ≡ (
          if leb (length m) buf_size
          then done (record { written = pieces m; freed = 1 })
          else overrun)
  unfolding net_test_readable
  echoed copy zero m enough = absurd (omega arith)
  echoed copy (suc fuel) [] enough = rw (echo_loop-end fuel 0 0 [] (omega arith)) refl
  echoed copy (suc zero) (x ∷ m) enough = absurd (omega arith)
  echoed copy (suc (suc fuel)) (x ∷ m) enough =
      let bytes = x ∷ m in
      elim (Bool-cases (leb (length bytes) buf_size)) [
        | inl few ↦
            rw (few, echo_loop-short copy fuel bytes (omega arith) (ground (arith, few))) refl
        | inr long ↦ rw (long, echo_loop-long (suc fuel) bytes (ground (arith, long))) refl
      ]

-- What `lwip_nif_up` calls.
pub data NetCall : Type 0 where
  netif_set_up : NetCall
  netif_set_default : NetCall
  netif_create_ip6_linklocal_address : NetCall
  dhcp_start : NetCall

-- `lwip_nif_up`, by MN_EINVAL, LWIP_IPV6, whether the interface is found and its link is up, and what
-- `dhcp_start` returns.
unfoldable pub lwip_nif_up : ℤ → Bool → Option Bool → ℤ → List NetCall × ℤ
lwip_nif_up einval ipv6 none err = ([], einval)
lwip_nif_up einval ipv6 (some link_up) err =
    if link_up
    then (
      netif_set_up
          ∷ netif_set_default
          ∷ ((if ipv6 then netif_create_ip6_linklocal_address ∷ [] else []) ++ dhcp_start ∷ []),
      err,
    )
    else ([], pos 0)
