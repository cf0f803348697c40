-- ===== src/Tdoa/Blink.antt =====
-- The blink timer of apps/tdoa_tag: when it runs, and when it is stranded.
use uwb_apps.Prelude.{ℕ, ◌≡◌, ◌≢◌, Bool, true, false, List, [], ◌∷◌, arith}
use uwb_apps.Prelude.Int.{ℤ, pos, negsuc}
use uwb_apps.Tdoa.{Tag, is_zero, uwb_conf_commit, uwb_config_updated, tdoa_timer_ev_cb, init_timer}

-- What happens to a running tag. A timer event needs an armed callout.
pub data Event : Type 0 where
  commit : ℤ → Event
  config : Event
  timer : Bool → Bool → Event

pub data Runs (per_sec size : ℕ) (s : Tag) : Tag → List Event → Type 0 where
  start : Runs per_sec size s s []
  commits :
      {t u : Tag} {es : List Event} (value : ℤ)
      → Runs per_sec size s t es
      → u ≡ (uwb_conf_commit per_sec value t).0
      → Runs per_sec size s u (commit value ∷ es)
  configs :
      {t u : Tag} {es : List Event}
      → Runs per_sec size s t es
      → u ≡ uwb_config_updated t
      → Runs per_sec size s u (config ∷ es)
  fires :
      {t u : Tag} {es : List Event} (sleeping failed : Bool)
      → Runs per_sec size s t es
      → t.armed ≡ true
      → u ≡ (tdoa_timer_ev_cb per_sec size sleeping failed t).0
      → Runs per_sec size s u (timer sleeping failed ∷ es)

-- Every rate that is committed is at least 0.
abbrev pub Unsigned : List Event → Type 0
Unsigned [] = Unit {0}
Unsigned (commit (pos n) ∷ es) = Unsigned es
Unsigned (commit (negsuc n) ∷ es) = ⊥
Unsigned (config ∷ es) = Unsigned es
Unsigned (timer a b ∷ es) = Unsigned es

-- A tag with a rate has its callout armed, and the rate is not negative.
pub record IsLive (t : Tag) : Type 0 where
  pub live : is_zero t.blink_rate ≡ false → t.armed ≡ true
  pub sign : (n : ℕ) → t.blink_rate ≢ negsuc n

commit-IsLive : (per_sec n : ℕ) (t : Tag) → IsLive t → IsLive (uwb_conf_commit per_sec (pos n) t).0
unfolding uwb_conf_commit
commit-IsLive per_sec n t v = record { live = ground (arith, v.live); sign = λ m e. ground arith }

step-IsLive :
    (per_sec size : ℕ) {s t : Tag} {es : List Event}
    → Runs per_sec size s t es
    → Unsigned es
    → IsLive s
    → IsLive t
unfolding tdoa_timer_ev_cb uwb_config_updated
step-IsLive per_sec size start u v = v
step-IsLive per_sec size (commits {t} (pos n) r e) u v =
    let w = commit-IsLive per_sec n t (step-IsLive per_sec size r u v) in
    record { live = ground (arith, w.live); sign = λ m q. ground (arith, w.sign m) }
step-IsLive per_sec size (commits (negsuc n) r e) u v = absurd u
step-IsLive per_sec size (configs r e) u v =
    let w = step-IsLive per_sec size r u v in
    record { live = ground (arith, w.live); sign = λ m q. ground (arith, w.sign m) }
step-IsLive per_sec size (fires a b r on e) u v =
    let w = step-IsLive per_sec size r u v in
    record { live = ground (arith, w.live); sign = λ m q. ground (arith, w.sign m) }

init-IsLive : (per_sec n : ℕ) (t : Tag) → t.blink_rate ≡ pos n → IsLive (init_timer per_sec t).0
unfolding init_timer
init-IsLive per_sec n t e = record { live = ground arith; sign = λ m q. ground arith }

-- As long as no negative rate is committed, a tag that started with a rate of at least 0 and has a rate other than 0 has its timer armed,
-- whatever the order of commits, configuration changes and timer events.
pub blinks :
    (per_sec size n : ℕ) (s : Tag) {t : Tag} {es : List Event}
    → s.blink_rate ≡ pos n
    → Runs per_sec size (init_timer per_sec s).0 t es
    → Unsigned es
    → is_zero t.blink_rate ≡ false
    → t.armed ≡ true
blinks per_sec size n s e r u nonzero =
    (step-IsLive per_sec size r u (init-IsLive per_sec n s e)).live nonzero

-- A negative rate strands the tag: once it is committed to a stopped tag, a positive rate that is
-- committed next is stored, but arms no timer, so the tag does not blink.
pub negative_strands :
    (per_sec n m : ℕ) (t : Tag)
    → t.blink_rate ≡ pos 0
    → t.armed ≡ false
    → let u = (uwb_conf_commit per_sec (negsuc n) t).0 in
      let w = (uwb_conf_commit per_sec (pos m) u).0 in (w.blink_rate ≡ pos m) × (w.armed ≡ false)
unfolding uwb_conf_commit
negative_strands per_sec n m t stopped off = (ground arith, ground arith)
