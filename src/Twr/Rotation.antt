-- ===== src/Twr/Rotation.antt =====
-- The rotation of the ranging modes in apps/twr_aloha.
use uwb_apps.Prelude.{
  ℕ, zero, suc, ◌+◌, ◌%◌, ◌<◌, ◌≡◌, sym, ◌∙◌, ap, Bool-cases, inl, inr, false, length, leb,
  if◌then◌else◌, arith,
}
use native.Mathlib.Nat.{mod-add-mod, mod-eq_of_lt, mod-lt, mod_self, add-zero}
use uwb_apps.Twr.Aloha.{Env, next_mode, uwb_ev_cb}

-- `k` timer events, one after the other: the static after them.
abbrev pub after : Env → ℕ → ℕ → ℕ
after e zero last = last
after e (suc k) last = (uwb_ev_cb e (after e k last)).0

-- `++last_used_mode` with its test is addition modulo the number of modes.
next-mod : (a n : ℕ) → 0 < n → (if leb n (a % n + 1) then 0 else a % n + 1) ≡ (a + 1) % n
next-mod a n h = rw (← mod-add-mod a n 1) (elim (Bool-cases (leb n (a % n + 1))) [
  | inl last ↦
      rw last (let all : a % n + 1 ≡ n = ground (arith, mod-lt a h) in rw all (sym (mod_self n)))
  | inr more ↦ rw more (sym (mod-eq_of_lt (ground arith)))
])

event-tag :
    (e : Env) (last : ℕ) → e.is_anchor ≡ false → (uwb_ev_cb e last).0 ≡ next_mode e.modes last
unfolding uwb_ev_cb
event-tag e last tag = ground arith

-- For a tag with `n` enabled modes that is in one of them, the mode in use moves on by one with every event, round the
-- modes: after `k` events from mode `m` it is mode `(m + k) % n`.
modes_rotate :
    (e : Env) (m k : ℕ)
    → e.is_anchor ≡ false
    → m < length e.modes
    → after e k m ≡ (m + k) % length e.modes
unfolding uwb_ev_cb
modes_rotate e m zero tag h =
    sym (mod-eq_of_lt (omega arith)) ∙ ap (λ x. x % length e.modes) (sym (add-zero m))
modes_rotate e m (suc k) tag h =
    let rest = next-mod (m + k) (length e.modes) (omega arith) in
    let next : m + k + 1 ≡ m + suc k = omega arith in
    let here = modes_rotate e m k tag h in
    event-tag e (after e k m) tag
    ∙ ap (next_mode e.modes) here
    ∙ rest
    ∙ ap (λ x. x % length e.modes) next
