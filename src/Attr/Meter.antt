-- ===== src/Attr/Meter.antt =====
-- src/takler/core/meter.py
use Prim.Native.String.{String}
use takler.Prelude.{
  ◌≡◌, ◌≢◌, ◌↔◌, sym, refl, Bool, ◌||◌, Option, none, some, if◌then◌else◌, arith, ◌⊎◌, Bool-cases,
  inl, inr,
}
use takler.Prelude.Int.{ℤ, ltb_ℤ, ◌≤ℤ◌}
use takler.Attr.{SerializationType, tree, status}

pub record Meter : Type 0 where
  pub name : String
  pub min_value : ℤ
  pub max_value : ℤ
  pub value : ℤ

-- `KeyError` is a missing key of a dictionary, `ValueError` a value out of the range.
pub data Error : Type 0 where
  key_error value_error : Error

pub data Result {ℓ} (A : Type ℓ) : Type ℓ where
  ok : A → Result A
  err : Error → Result A

abbrev pub need {ℓ κ} : {A : Type ℓ} {B : Type κ} → Option A → (A → Result B) → Result B
need none f = err key_error
need (some a) f = f a

-- `Meter.__init__`
abbrev pub new_meter : String → ℤ → ℤ → Meter
new_meter name min_value max_value = record {
  name = name;
  min_value = min_value;
  max_value = max_value;
  value = min_value;
}

-- `is_invalid`, which answers whether the value is out of the range.
abbrev pub is_invalid : ℤ → Meter → Bool
is_invalid v m = ltb_ℤ v m.min_value || ltb_ℤ m.max_value v

-- The setter of `value`
unfoldable pub set_meter : ℤ → Meter → Result Meter
set_meter v m = if is_invalid v m then err value_error else ok (record m { value = v })

unfoldable pub reset_meter : Meter → Result Meter
unfolding set_meter
reset_meter m = set_meter m.min_value m

pub record MeterDict : Type 0 where
  pub name : Option String
  pub min_value : Option ℤ
  pub max_value : Option ℤ
  pub value : Option ℤ

unfoldable pub meter_to_dict : Meter → MeterDict
meter_to_dict m = record {
  name = some m.name;
  min_value = some m.min_value;
  max_value = some m.max_value;
  value = some m.value;
}

abbrev fill_meter : SerializationType → Option ℤ → Meter → Result Meter
fill_meter tree value m = ok m
fill_meter status value m = need value (λ v. set_meter v m)

unfoldable pub meter_from_dict : SerializationType → MeterDict → Result Meter
unfolding set_meter
meter_from_dict method d = need d.name λ name.
    need d.min_value λ lo. need d.max_value λ hi. fill_meter method d.value (new_meter name lo hi)

abbrev pub InRange : ℤ → Meter → Type 0
InRange v m = (m.min_value ≤ℤ v) × (v ≤ℤ m.max_value)

abbrev pub IsValid : Meter → Type 0
IsValid m = InRange m.value m

err≢ok : {m : Meter} → err value_error ≢ ok m
err≢ok e = cc

-- The setter takes a value in the range, writes it and leaves the rest of the meter, and refuses any
-- other with a `ValueError`.
pub set_meter_lem :
    (v : ℤ) (m : Meter)
    → (set_meter v m ≡ ok (record m { value = v }) ↔ InRange v m)
      × (set_meter v m ≡ err value_error ↔ ¬ InRange v m)
unfolding set_meter
set_meter_lem v m = elim (Bool-cases (is_invalid v m)) [
  | inl e ↦ rw e ((λ h. absurd (err≢ok h), λ h. ground arith), (λ _ h. ground arith, λ _. refl))
  | inr e ↦ rw e (
    (λ _. ground arith, λ _. refl),
    (λ h. absurd (err≢ok (sym h)), λ h. absurd (h (ground arith))),
  )
]

-- Whatever meter a write or a reset starts from, the meter that it returns has its value in its range.
meter-IsValid :
    (m m' : Meter) (v : ℤ) → (set_meter v m ≡ ok m') ⊎ (reset_meter m ≡ ok m') → IsValid m'
unfolding set_meter reset_meter
meter-IsValid m m' v (inl h) = ground arith
meter-IsValid m m' v (inr h) = ground arith

-- A valid meter goes through its status dictionary unchanged, and through its definition dictionary
-- to what a reset makes of it.
pub meter_from_dict-meter_to_dict :
    (m : Meter)
    → IsValid m
    → (meter_from_dict status (meter_to_dict m) ≡ ok m)
      × (meter_from_dict tree (meter_to_dict m) ≡ reset_meter m)
unfolding meter_from_dict meter_to_dict reset_meter
meter_from_dict-meter_to_dict m h = ground arith
