-- ===== src/Event.antt =====
-- src/event.rs: the event log's entries. `Validation` is the type of src/validate.rs.
use jawohl.Prelude.{Option, none, some, Bytes}
use jawohl.Value.{Value}

pub data ValueKind : Type 0 where
  object array string number bool null : ValueKind

-- What is known about a value's validity (src/validate.rs).
pub data Validation : Type 0 where
  pending valid_so_far valid invalid irrecoverably_invalid : Validation

pub data Event : Type 0 where
  value_started : Bytes → ValueKind → Event
  value_progressed : Bytes → Bytes → Event
  value_completed : Bytes → Value → Event
  validation_failed : Bytes → Validation → Event
  validation_completed : Bytes → Validation → Event
  document_completed : Event

-- The path that an event concerns.
unfoldable pub path : Event → Option Bytes
path (value_started p _) = some p
path (value_progressed p _) = some p
path (value_completed p _) = some p
path (validation_failed p _) = some p
path (validation_completed p _) = some p
path document_completed = none

-- The events that `Stream` adds to the parser's own.
abbrev pub IsVerdict : Event → Type 0
IsVerdict (validation_failed p state) = Unit
IsVerdict (validation_completed p state) = Unit
IsVerdict _ = ⊥
