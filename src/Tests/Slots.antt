-- ===== src/Tests/Slots.antt =====
-- Examples for the plans of the slots, and for who asks in them.
use uwb_apps.Prelude.{◌≡◌, refl, false}
use uwb_apps.Radio.{is_request}
use uwb_apps.Tdma.{Slot}
use uwb_apps.Rtdoa.Node
use uwb_apps.Rtdoa.Node.{nrng_slot_timer_cb}
use uwb_apps.Rtdoa.Tag
use uwb_apps.Rtdoa.Slots.{assigned, tag_view, plans_agree}
use uwb_apps.Twr.Nranges.{Settings, slot_cb, range_in_slot}
use uwb_apps.Twr.Sharing.{tags_apart}
use uwb_apps.Tests.Fixtures.{slot_ex}

plans_agree_example :
    assigned 24 (Tag.tdma_allocate_slots 160)
    ≡ tag_view (assigned 24 (Node.tdma_allocate_slots 160))
plans_agree_example = plans_agree 160 24

abbrev settings_ex : Settings
settings_ex = record { ntags = 4; node_start = 1; node_end = 4 }

-- Slot 34 belongs to tag 2.
abbrev own_ex : Slot
own_ex = record slot_ex { idx = 34 }

tags_apart_example : own_ex.slot_id ≡ 2
unfolding slot_cb range_in_slot is_request
tags_apart_example = tags_apart settings_ex own_ex own_ex false false false false refl refl refl
