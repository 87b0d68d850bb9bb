-- ===== src/Attr.antt =====
-- The attributes of a node that hold a value: src/takler/core/event.py, meter.py, repeat.py,
-- time_attr.py and calendar.py, one module each.
pub mod Event
pub mod Meter
pub mod Repeat
pub mod TimeAttr
pub mod Calendar

-- src/takler/core/util.py: what a serialized node carries.
pub data SerializationType : Type 0 where
  tree status : SerializationType
