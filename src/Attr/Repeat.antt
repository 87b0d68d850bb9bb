-- ===== src/Attr/Repeat.antt =====
-- src/takler/core/repeat.py: a repeat over dates. A date is its ordinal, the number of a day; the
-- reading and printing of dates is the standard library's. The definition schema takes positive steps
-- only, so a step is a natural number, and a step of 0 divides by zero in `change`.
pub mod Changed
use Prim.Native.String.{String}
use takler.Prelude.{
  ℕ, ◌+◌, ◌-◌, ◌%◌, Bool, true, false, ◌||◌, ◌&&◌, ltb, leb, ◌==◌, if◌then◌else◌, Option, none,
  some,
}

pub record RepeatDate : Type 0 where
  pub name : String
  pub start_date : ℕ
  pub end_date : ℕ
  pub step_day : ℕ
  pub value : ℕ

pub data Error : Type 0 where
  out_of_range off_step zero_division : Error

pub data Result : Type 0 where
  ok : RepeatDate → Result
  err : Error → Result

-- `RepeatDate.__init__`
abbrev pub new_repeat : String → ℕ → ℕ → ℕ → RepeatDate
new_repeat name start_date end_date step = record {
  name = name;
  start_date = start_date;
  end_date = end_date;
  step_day = step;
  value = start_date;
}

abbrev pub is_valid : RepeatDate → Bool
is_valid r = leb r.start_date r.value && leb r.value r.end_date

-- The ordinal of `date.max`, 9999-12-31.
abbrev pub max_date : ℕ
max_date = 3652059

-- `none` is the `OverflowError` of a sum past `date.max`.
unfoldable pub increment : RepeatDate → Option (RepeatDate × Bool)
increment r =
    let value = r.value + r.step_day in
    if ltb max_date value
    then none
    else if leb value r.end_date
    then some (record r { value = value }, true)
    else some (r, false)

-- `diff.is_integer()` for the quotient of the two intervals.
unfoldable pub change : ℕ → RepeatDate → Result
change value r =
    if ltb value r.start_date || ltb r.end_date value
    then err out_of_range
    else (if r.step_day == 0
        then err zero_division
        else (if (value - r.start_date) % r.step_day == 0
            then ok (record r { value = value })
            else err off_step))

unfoldable pub reset : RepeatDate → RepeatDate
reset r = record r { value = r.start_date }
