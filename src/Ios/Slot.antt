-- ===== src/Ios/Slot.antt =====
-- `Slot` of crates/quadcontrol-ios/src/mjpeg.rs: the newest frame and its number, shared by the thread
-- that reads the device and by one writer for each connection. Each step is what one thread does
-- under the lock; a wait for a new frame is no step. The counters of frames stay below 2 ^ 64.
pub mod Delivery
use quad_control.Base.{
  ◌%◌, ◌^◌, ◌-◌, ℕ, ◌+◌, Bool, true, false, not, ◌&&◌, List, [], ◌∷◌, Option, none, some, ltb, ◌==◌,
  if◌then◌else◌,
}
use quad_control.Base.Text.{Text}

pub record Slot : Type 0 where
  pub frame : Option Text
  pub seq : ℕ
  pub consumed : Bool
  pub drops : ℕ
  pub last_frame_at : Option ℕ
  pub stopping : Bool
  pub writers : ℕ

unfoldable pub new : Slot
new = record {
  frame = none;
  seq = 0;
  consumed = false;
  drops = 0;
  last_frame_at = none;
  stopping = false;
  writers = 0;
}

-- the frame in the slot is about to be overwritten and nobody has taken it
abbrev pub is_unseen : Slot → Bool
is_unseen s = ltb 0 s.seq && not s.consumed

unfoldable pub publish : ℕ → Text → Slot → Slot
publish now frame s = record s {
  drops = if is_unseen s && ltb 0 s.writers then s.drops + 1 else s.drops;
  frame = some frame;
  seq = s.seq + 1;
  consumed = false;
  last_frame_at = some now;
}

-- One turn of the loop of `next_frame`: it returns, with the writer's new number, or it waits.
pub data Poll : Type 0 where
  stopped waits : Poll
  takes : (seq : ℕ) (frame : Option Text) → Poll

unfoldable pub next_frame : ℕ → Slot → Slot × Poll
next_frame last_seq s =
    if s.stopping
    then (s, stopped)
    else if ltb last_seq s.seq
    then (record s { consumed = true }, takes s.seq s.frame)
    else (s, waits)

-- the start and the end of `write_downstream`; the count of writers has 64 bits and wraps
unfoldable pub join : Slot → Slot
join s = record s { writers = (s.writers + 1) % 2 ^ 64 }

unfoldable pub leave : Slot → Slot
leave s = record s { writers = (s.writers + (2 ^ 64 - 1)) % 2 ^ 64 }

-- `stop`, or the end of the stream
unfoldable pub halt : Slot → Slot
halt s = record s { stopping = true }
