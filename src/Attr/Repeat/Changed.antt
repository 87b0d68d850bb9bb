-- ===== src/Attr/Repeat/Changed.antt =====
-- About the values that a repeat may be changed to (src/takler/core/repeat.py).
use native.Mathlib.Nat.{div-add-mod', mul-mod_left}
use takler.Prelude.{ℕ, ◌+◌, ◌-◌, ◌*◌, ◌/◌, ◌%◌, ◌≤◌, ◌<◌, ◌≡◌, ◌↔◌, arith}
use takler.Attr.Repeat.{RepeatDate, ok, change}

-- In range and a whole number of steps from the start.
abbrev pub IsOnGrid : RepeatDate → ℕ → Type 0
IsOnGrid r v = (k : ℕ) × (v ≡ r.start_date + k * r.step_day) × (v ≤ r.end_date)

-- `change` takes exactly the dates of the range that are a whole number of steps from the start; it
-- writes the date and nothing else.
pub change_iff :
    (v : ℕ) (r : RepeatDate)
    → 0 < r.step_day
    → (change v r ≡ ok (record r { value = v })) ↔ ((r.start_date ≤ v) × IsOnGrid r v)
unfolding change
change_iff v r pos = (there, back)
  where
    there : change v r ≡ ok (record r { value = v }) → (r.start_date ≤ v) × IsOnGrid r v
    there h = (
      ground arith,
      (
        (v - r.start_date) / r.step_day,
        ground (arith, div-add-mod' (v - r.start_date) r.step_day),
        ground arith,
      ),
    )

    back : (r.start_date ≤ v) × IsOnGrid r v → change v r ≡ ok (record r { value = v })
    back (lo, (k, e, hi)) =
        let rest : v - r.start_date ≡ k * r.step_day = omega arith in
        let whole : (v - r.start_date) % r.step_day ≡ 0 = rw rest (mul-mod_left k r.step_day) in
        ground arith
