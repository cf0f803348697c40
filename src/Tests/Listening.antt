-- ===== src/Tests/Listening.antt =====
-- Examples for runs of apps/listener, for its boards and for its network.
use uwb_apps.Prelude.{
  ℕ, suc, ◌≤◌, ◌≡◌, refl, arith, true, List, [], ◌∷◌, take, drop, replicate, some, zero, ap,
}
use uwb_apps.Prelude.Int.{pos}
use uwb_apps.Listener.Structs.{Env, Board}
use uwb_apps.Listener.Net.{done, net_test_readable, IsCopy, echoed}
use uwb_apps.Tests.Devices.{env_ex}

-- Three boards: the second heard another frame than the first.
abbrev board_ex : Board
board_ex = record {
  rxbuf_crc16 = 77;
  rx_length = 20;
  rxdiag = 1;
  ts = 100;
  edge = record { valid = true; raw_ts = pos 640; fp_idx = 745 };
  pdoa = 3;
}

abbrev boards_ex : List Board
boards_ex = record board_ex { rxbuf_crc16 = 78 } ∷ board_ex ∷ []

abbrev spi_ex : Env
spi_ex = record env_ex {
  boards = some (board_ex ∷ boards_ex);
  edge = record { valid = true; raw_ts = pos 640; fp_idx = 745 };
}

-- A copy out of a list.
abbrev copydata_ex : ℕ → ℕ → List ℕ → List ℕ
copydata_ex off len m = take len (drop off m)

take-take : (n len : ℕ) (xs : List ℕ) → n ≤ len → take n (take len xs) ≡ take n xs
take-take zero len xs h = refl
take-take (suc n) zero xs h = absurd (omega arith)
take-take (suc n) (suc len) [] h = refl
take-take (suc n) (suc len) (x ∷ xs) h = ap (λ ys. x ∷ ys) (take-take n len xs (omega arith))

copydata_ex-IsCopy : IsCopy copydata_ex
copydata_ex-IsCopy off len n m h within = take-take n len (drop off m) h

-- A chain of 20 bytes.
abbrev bytes_ex : List ℕ
bytes_ex = replicate 20 7

echoed_example :
    net_test_readable copydata_ex 21 0 (some bytes_ex)
    ≡ done (record { written = bytes_ex ∷ []; freed = 1 })
echoed_example = echoed copydata_ex copydata_ex-IsCopy 21 bytes_ex (omega arith)
