-- ===== src/Streaming/Plan.antt =====
-- The slot plan of apps/streaming.
use uwb_apps.Prelude.{
  ℕ, zero, suc, ◌+◌, ◌-◌, ◌%◌, ◌≤◌, ◌≡◌, Bool, not, ◌&&◌, [], ◌∷◌, ltb, leb, ◌==◌, if◌then◌else◌,
  arith,
}
use uwb_apps.Rtdoa.Slots.{assigned}
use uwb_apps.Streaming.{range, stream, assign_loop, assign_slots}

loop_plan :
    (concurrent : Bool) (r j i : ℕ)
    → assigned i (assign_loop concurrent r j) ≡ (
        if leb j i && ltb i (j + r)
        then (if concurrent && not ((i % 16) == 0) then range else stream) ∷ []
        else [])
unfolding assign_loop
loop_plan concurrent zero j i = ground arith
loop_plan concurrent (suc r) j i = ground (arith, loop_plan concurrent r (suc j) i)

-- The plan of a device with at least two slots: slot 0 and the last slot have no callback, the others one.
-- Without concurrent ranging it is the stream's; with it, the stream has the slots whose number is a
-- multiple of 16, and ranging has all the others.
stream_plan :
    (concurrent : Bool) (nslots i : ℕ)
    → 2 ≤ nslots
    → assigned i (assign_slots concurrent nslots) ≡ (
        if leb 1 i && ltb i (nslots - 1)
        then (if concurrent && not ((i % 16) == 0) then range else stream) ∷ []
        else [])
unfolding assign_slots
stream_plan concurrent nslots i h = ground (arith, loop_plan concurrent (nslots - 1 - 1) 1 i)
