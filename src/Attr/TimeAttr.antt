-- ===== src/Attr/TimeAttr.antt =====
-- src/takler/core/time_attr.py: a point of the day, and the flag that the point was met. A calendar
-- gives the hour and the minute of its flow time.
use takler.Prelude.{
  ℕ, ◌≡◌, Bool, true, false, ◌&&◌, List, [], ◌∷◌, ◌==◌, if◌then◌else◌, arith, ◌⊎◌, ◌↔◌, inl, inr,
  Bool-cases,
}

pub record TimeOfDay : Type 0 where
  pub hour : ℕ
  pub minute : ℕ

pub record TimeAttribute : Type 0 where
  pub time : TimeOfDay
  pub free : Bool

-- `TimeAttribute.__init__`, of a time that is read already.
abbrev pub new_time : TimeOfDay → TimeAttribute
new_time t = record { time = t; free = false }

unfoldable pub is_free : TimeOfDay → TimeAttribute → Bool
is_free flow_time a =
    if a.free then true else flow_time.hour == a.time.hour && flow_time.minute == a.time.minute

abbrev pub set_free : TimeAttribute → TimeAttribute
set_free a = record a { free = true }

-- `clear_free`, and `reset`, which calls it.
abbrev pub clear_free : TimeAttribute → TimeAttribute
clear_free a = record a { free = false }

unfoldable pub calendar_changed : TimeOfDay → TimeAttribute → TimeAttribute
unfolding is_free
calendar_changed flow_time a = if a.free then a else (if is_free flow_time a then set_free a else a)

-- The changes of the calendar, in order.
unfoldable pub follow : List TimeOfDay → TimeAttribute → TimeAttribute
unfolding calendar_changed
follow [] a = a
follow (t ∷ ts) a = follow ts (calendar_changed t a)

abbrev pub Met : TimeOfDay → List TimeOfDay → Type 0
Met t [] = ⊥
Met t (u ∷ us) = ((u.hour ≡ t.hour) × (u.minute ≡ t.minute)) ⊎ Met t us

follow_free : (ts : List TimeOfDay) (a : TimeAttribute) → a.free ≡ true → (follow ts a).free ≡ true
unfolding follow
follow_free [] a h = h
follow_free (t ∷ ts) a h = follow_free ts (calendar_changed t a) (ground arith)

time-calendar_changed : (t : TimeOfDay) (a : TimeAttribute) → (calendar_changed t a).time ≡ a.time
unfolding calendar_changed
time-calendar_changed t a = ground arith

follow-Met : (ts : List TimeOfDay) (a : TimeAttribute) → Met a.time ts → (follow ts a).free ≡ true
unfolding follow
follow-Met [] a h = absurd h
follow-Met (t ∷ ts) a (inl e) = follow_free ts (calendar_changed t a) (ground arith)
follow-Met (t ∷ ts) a (inr m) =
    follow-Met ts (calendar_changed t a) (rw (time-calendar_changed t a) m)

follow_kept :
    (ts : List TimeOfDay) (a : TimeAttribute)
    → (follow ts a).free ≡ true
    → (a.free ≡ true) ⊎ Met a.time ts
unfolding follow
follow_kept [] a h = inl h
follow_kept (t ∷ ts) a h = elim (follow_kept ts (calendar_changed t a) h) [
  | inl f ↦ now (Bool-cases (is_free t a)) f
  | inr m ↦ inr (inr (rw (time-calendar_changed t a) at m))
]
  where
    now :
        (is_free t a ≡ true) ⊎ (is_free t a ≡ false)
        → (calendar_changed t a).free ≡ true
        → (a.free ≡ true) ⊎ Met a.time (t ∷ ts)
    now (inl e) f = elim (Bool-cases a.free) [ inl g ↦ inl g | inr g ↦ inr (inl (ground arith)) ]
    now (inr e) f = inl (ground arith)

-- After any changes of the calendar the attribute is satisfied for good exactly if it was before, or
-- if one of them stood at its hour and minute.
pub follow_iff :
    (ts : List TimeOfDay) (a : TimeAttribute)
    → ((follow ts a).free ≡ true) ↔ ((a.free ≡ true) ⊎ Met a.time ts)
follow_iff ts a = (follow_kept ts a, back)
  where
    back : (a.free ≡ true) ⊎ Met a.time ts → (follow ts a).free ≡ true
    back (inl f) = follow_free ts a f
    back (inr m) = follow-Met ts a m
