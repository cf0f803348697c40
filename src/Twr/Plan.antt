-- ===== src/Twr/Plan.antt =====
-- The slot plan of apps/twr_nranges_tdma.
use uwb_apps.Prelude.{
  ℕ, zero, suc, ◌+◌, ◌-◌, ◌≤◌, ◌≡◌, ◌≢◌, Bool, true, false, ◌&&◌, ◌||◌, List, [], ◌∷◌, ltb, leb,
  ◌==◌, if◌then◌else◌, arith,
}
use uwb_apps.Rtdoa.Slots.{assigned}
use uwb_apps.Twr.Nranges.{
  Handler, pan, survey_range, survey_broadcast, range, assign_loop, assign_slots,
}

loop_plan :
    (r j i : ℕ)
    → assigned i (assign_loop r j) ≡ (if leb j i && ltb i (j + r) then range ∷ [] else [])
unfolding assign_loop
loop_plan zero j i = ground arith
loop_plan (suc r) j i = ground (arith, loop_plan r (suc j) i)

-- What slot `i` is for, with the first slot for ranging.
abbrev pub ranging_from : ℕ → ℕ → ℕ → List Handler
ranging_from first nslots i =
    if (i == 1) || (i == 2)
    then pan ∷ []
    else if leb first i && ltb i nslots
    then range ∷ []
    else []

-- The plan of a device: the PAN has slots 1 and 2, and without a survey ranging has all slots from 3 on.
-- With a survey whose two slots are different and lie from 3 to 5, these are the survey's alone, and
-- ranging has all slots from 6 on. Slot 0 has no callback, and no slot has two.
slot_plan :
    (survey : Bool) (at_range at_broadcast nslots i : ℕ)
    → (3 ≤ at_range) × (at_range ≤ 5)
    → (3 ≤ at_broadcast) × (at_broadcast ≤ 5)
    → at_range ≢ at_broadcast
    → assigned i (assign_slots survey (at_range, at_broadcast) nslots) ≡ (
        if survey && (i == at_range)
        then survey_range ∷ []
        else if survey && (i == at_broadcast)
        then survey_broadcast ∷ []
        else ranging_from (if survey then 6 else 3) nslots i)
unfolding assign_slots
slot_plan true at_range at_broadcast nslots i r b apart = ground (arith, loop_plan (nslots - 6) 6 i)
slot_plan false at_range at_broadcast nslots i r b apart =
    ground (arith, loop_plan (nslots - 3) 3 i)
