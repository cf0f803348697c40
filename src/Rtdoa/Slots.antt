-- ===== src/Rtdoa/Slots.antt =====
-- The slot plans of apps/rtdoa_node and apps/rtdoa_tag.
use uwb_apps.Prelude.{
  ℕ, zero, suc, ◌+◌, ◌-◌, ◌%◌, ◌≡◌, not, ◌&&◌, List, [], ◌∷◌, ltb, leb, ◌==◌, if◌then◌else◌, arith,
}
use uwb_apps.Rtdoa.Node
use uwb_apps.Rtdoa.Tag

-- The callbacks that a plan assigns to a slot, in order.
abbrev pub assigned {ℓ} : {A : Type ℓ} → ℕ → List (ℕ × A) → List A
assigned i [] = []
assigned i ((j, h) ∷ rest) = if j == i then h ∷ assigned i rest else assigned i rest

-- What the loops assign to slot `i`.
abbrev pub shared_plan {ℓ} : {A : Type ℓ} → ℕ → A → A → ℕ → List A
shared_plan nslots nmgr rtdoa i =
    if leb 2 i && ltb i nslots && not (i == 31)
    then (if (i % 12) == 0 then nmgr else rtdoa) ∷ []
    else []

node_loop :
    (r j i : ℕ)
    → assigned i (Node.allocate_loop r j) ≡ (
        if leb j i && ltb i (j + r) && not (i == 31)
        then (if (i % 12) == 0 then Node.nmgr else Node.rtdoa) ∷ []
        else [])
unfolding Node.allocate_loop
node_loop zero j i = ground arith
node_loop (suc r) j i = ground (arith, node_loop r (suc j) i)

tag_loop :
    (r j i : ℕ)
    → assigned i (Tag.allocate_loop r j) ≡ (
        if leb j i && ltb i (j + r) && not (i == 31)
        then (if (i % 12) == 0 then Tag.nmgr else Tag.rtdoa) ∷ []
        else [])
unfolding Tag.allocate_loop
tag_loop zero j i = ground arith
tag_loop (suc r) j i = ground (arith, tag_loop r (suc j) i)

-- The plan of an anchor: slot 1 is the PAN's, slot 31 the anchors' own ranging, every twelfth slot
-- newtmgr's and every other one RTDoA's, from slot 2 below the number of slots. No slot has two
-- callbacks, and slot 0 (the CCP's) has none.
node_plan :
    (nslots i : ℕ)
    → assigned i (Node.tdma_allocate_slots nslots) ≡ (
        if i == 1
        then Node.pan ∷ []
        else if i == 31
        then Node.nrng ∷ []
        else shared_plan nslots Node.nmgr Node.rtdoa i)
unfolding Node.tdma_allocate_slots
node_plan nslots i = ground (arith, node_loop (nslots - 2) 2 i)

-- What an anchor does in a slot, as a tag sees it: PAN and ranging slots are not the tag's.
abbrev pub tag_view : List Node.Handler → List Tag.Handler
tag_view [] = []
tag_view (Node.pan ∷ hs) = tag_view hs
tag_view (Node.nrng ∷ hs) = tag_view hs
tag_view (Node.nmgr ∷ hs) = Tag.nmgr ∷ tag_view hs
tag_view (Node.rtdoa ∷ hs) = Tag.rtdoa ∷ tag_view hs

-- Anchors and tags that are built for the same number of slots agree on every slot: a tag listens
-- for RTDoA exactly where the anchors emit, serves newtmgr exactly where they do, and leaves the
-- other slots alone.
pub plans_agree :
    (nslots i : ℕ)
    → assigned i (Tag.tdma_allocate_slots nslots)
      ≡ tag_view (assigned i (Node.tdma_allocate_slots nslots))
unfolding Tag.tdma_allocate_slots
plans_agree nslots i = ground (arith, tag_loop (nslots - 2) 2 i, node_plan nslots i)
