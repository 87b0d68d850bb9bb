-- ===== src/Attr/Calendar.antt =====
-- src/takler/core/calendar.py: the logical time of a flow. Times and intervals are whole numbers of
-- microseconds; what the clock shows, `datetime.now()`, is an argument.
use takler.Prelude.{◌≡◌, refl, ◌∙◌, List, [], ◌∷◌, Option, none, some, bind, ap}
use takler.Prelude.Int.{ℤ, pos, ◌+ℤ◌, ◌-ℤ◌, int_laws}

pub record Calendar : Type 0 where
  pub initial_time : Option ℤ
  pub flow_time : Option ℤ
  pub duration : Option ℤ
  pub increment : Option ℤ
  pub initial_real_time : Option ℤ
  pub last_real_time : Option ℤ

-- `Calendar.__init__`
abbrev pub new_calendar : Calendar
new_calendar = record {
  initial_time = none;
  flow_time = none;
  duration = none;
  increment = none;
  initial_real_time = none;
  last_real_time = none;
}

unfoldable pub begin : (now time : ℤ) → Calendar
begin now time = record {
  initial_time = some time;
  flow_time = some time;
  duration = some (pos 0);
  increment = some (pos 0);
  initial_real_time = some now;
  last_real_time = some now;
}

-- `none` is the `TypeError` of a calendar that has not begun.
unfoldable pub update : ℤ → Calendar → Option Calendar
update time c = bind c.last_real_time λ last. bind c.initial_real_time λ first.
    bind c.flow_time λ flow. some (record c {
      increment = some (time -ℤ last);
      duration = some (time -ℤ first);
      flow_time = some (flow +ℤ (time -ℤ last));
      last_real_time = some time;
    })

unfoldable pub updates : List ℤ → Calendar → Option Calendar
unfolding update
updates [] c = some c
updates (t ∷ ts) c = bind (update t c) (updates ts)

abbrev pub last_of : ℤ → List ℤ → ℤ
last_of t [] = t
last_of t (u ∷ us) = last_of u us

-- A calendar that began at `time` when the clock showed `now`, and was last updated at `last`.
record Runs (now time last : ℤ) (c : Calendar) : Type 0 where
  flow_at : c.flow_time ≡ some (time +ℤ (last -ℤ now))
  duration_at : c.duration ≡ some (last -ℤ now)
  first_at : c.initial_real_time ≡ some now
  last_at : c.last_real_time ≡ some last

abbrev moved : ℤ → ℤ → ℤ → ℤ → Calendar → Calendar
moved now time last t c = record c {
  increment = some (t -ℤ last);
  duration = some (t -ℤ now);
  flow_time = some (time +ℤ (last -ℤ now) +ℤ (t -ℤ last));
  last_real_time = some t;
}

update-moved :
    (now time last t : ℤ) (c : Calendar)
    → Runs now time last c
    → update t c ≡ some (moved now time last t c)
unfolding update
update-moved now time last t c h = rw (h.last_at, h.first_at, h.flow_at)

moved-Runs :
    (now time last t : ℤ) (c : Calendar)
    → Runs now time last c
    → Runs now time t (moved now time last t c)
moved-Runs now time last t c h = record {
  flow_at = ap some (omega int_laws);
  duration_at = refl;
  first_at = h.first_at;
  last_at = refl;
}

updates-Runs :
    (ts : List ℤ) (now time last : ℤ) (c : Calendar)
    → Runs now time last c
    → (c' : Calendar) × (updates ts c ≡ some c') × Runs now time (last_of last ts) c'
unfolding updates
updates-Runs [] now time last c h = (c, refl, h)
updates-Runs (t ∷ ts) now time last c h =
    let (c', e, r) =
      updates-Runs ts now time t (moved now time last t c) (moved-Runs now time last t c h) in
    (c', ap (λ o. bind o (updates ts)) (update-moved now time last t c h) ∙ e, r)

-- However often a begun calendar is updated, no update fails, and its flow time is its initial time
-- moved on by the real time since the beginning, which is also its duration: no interval is lost or
-- counted twice.
pub updates_flow_time :
    (now time : ℤ) (ts : List ℤ)
    → (c : Calendar) × (updates ts (begin now time) ≡ some c)
      × (c.flow_time ≡ some (time +ℤ (last_of now ts -ℤ now)))
      × (c.duration ≡ some (last_of now ts -ℤ now))
unfolding begin
updates_flow_time now time ts =
    let (c, e, r) = updates-Runs ts now time now (begin now time) (record {
      flow_at = ap some (omega int_laws);
      duration_at = ap some (omega int_laws);
      first_at = refl;
      last_at = refl;
    }) in
    (c, e, r.flow_at, r.duration_at)
