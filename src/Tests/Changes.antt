-- ===== src/Tests/Changes.antt =====
-- Examples for the changes of settings.
use uwb_apps.Prelude.{true, List, [], ◌∷◌}
use uwb_apps.Updates.{Event, change, slot}
use uwb_apps.Tests.Fixtures.{slot_ex, taken_ex}

-- Two changes while the clock is in step, a slot that the CCP takes, and a free one.
abbrev events_ex : List Event
events_ex = change 1 true ∷ change 1 true ∷ slot taken_ex ∷ slot slot_ex ∷ []
