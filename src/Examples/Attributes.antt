-- ===== src/Examples/Attributes.antt =====
-- Meters and repeats with concrete values.
use takler.Prelude.{◌≡◌, refl}
use takler.Prelude.Int.{pos, negsuc}
use takler.Attr.Meter.{Meter, ok, set_meter}
use takler.Attr.Repeat.{RepeatDate, change}
use takler.Attr.Repeat

abbrev meter : Meter
meter = record { name = "step"; min_value = negsuc 4; max_value = pos 10; value = pos 3 }

set_meter_seven : set_meter (pos 7) meter ≡ ok (record meter { value = pos 7 })
unfolding set_meter
set_meter_seven = refl

abbrev week : RepeatDate
week = record { name = "day"; start_date = 100; end_date = 115; step_day = 7; value = 107 }

change_in_week : change 114 week ≡ Repeat.ok (record week { value = 114 })
unfolding change
change_in_week = refl
