-- ===== src/Io/Events.antt =====
-- The `Event` bits of ttw/ioscheduler.h: READ is 1 and WRITE is 4, and a mask is a set of the two.
use ttw.Prelude.{ℕ, ◌+◌, Bool, true, false, ◌&&◌, not, if◌then◌else◌}

pub data Event : Type 0 where
  no_event on_read on_write : Event

pub record Mask : Type 0 where
  pub read : Bool
  pub write : Bool

abbrev pub no_events : Mask
no_events = record { read = false; write = false }

-- `events & event`, as a test
abbrev pub meets : Mask → Event → Bool
meets m no_event = false
meets m on_read = m.read
meets m on_write = m.write

-- `events | event`
abbrev pub with_event : Mask → Event → Mask
with_event m no_event = m
with_event m on_read = record m { read = true }
with_event m on_write = record m { write = true }

-- `events & ~event`
abbrev pub without_event : Mask → Event → Mask
without_event m no_event = m
without_event m on_read = record m { read = false }
without_event m on_write = record m { write = false }

-- `events == NONE`
abbrev pub is_none : Mask → Bool
is_none m = not m.read && not m.write

-- How many events a mask holds.
abbrev pub bits : Mask → ℕ
bits m = (if m.read then 1 else 0) + (if m.write then 1 else 0)
