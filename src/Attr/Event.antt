-- ===== src/Attr/Event.antt =====
-- src/takler/core/event.py
use Prim.Native.String.{String}
use takler.Prelude.{◌≡◌, refl, Bool, Option, some, bind}
use takler.Attr.{SerializationType, tree, status}

pub record Event : Type 0 where
  pub name : String
  pub initial_value : Bool
  pub value : Bool

-- `Event.__init__`
abbrev pub new_event : String → Bool → Event
new_event name initial_value = record {
  name = name;
  initial_value = initial_value;
  value = initial_value;
}

-- The setter of `value`
abbrev pub set_event : Bool → Event → Event
set_event v e = record e { value = v }

unfoldable pub reset_event : Event → Event
reset_event e = set_event e.initial_value e

-- The dictionary of an event; a key may be missing.
pub record EventDict : Type 0 where
  pub name : Option String
  pub initial_value : Option Bool
  pub value : Option Bool

unfoldable pub event_to_dict : Event → EventDict
event_to_dict e = record {
  name = some e.name;
  initial_value = some e.initial_value;
  value = some e.value;
}

abbrev fill_event : SerializationType → Option Bool → Event → Option Event
fill_event tree value e = some e
fill_event status value e = bind value (λ v. some (set_event v e))

-- `none` is a `KeyError`.
unfoldable pub event_from_dict : SerializationType → EventDict → Option Event
event_from_dict method d =
    bind d.name
      λ name. bind d.initial_value λ initial. fill_event method d.value (new_event name initial)

-- A status dictionary restores the event; a definition dictionary restores the event as it is after a
-- requeue.
event_from_dict-event_to_dict :
    (e : Event)
    → (event_from_dict status (event_to_dict e) ≡ some e)
      × (event_from_dict tree (event_to_dict e) ≡ some (reset_event e))
unfolding event_from_dict event_to_dict reset_event
event_from_dict-event_to_dict e = (refl, refl)
