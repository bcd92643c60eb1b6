-- ===== src/Ios/Frames/Pump.antt =====
-- `read_upstream_boundary` and `pump_upstream` of crates/quadcontrol-ios/src/mjpeg.rs: the frames of the device go
-- into the slot that the writers read.
use quad_control.Base.{
  ℕ, zero, suc, ◌<◌, ◌≡◌, refl, Bool, true, false, ◌++◌, Option, none, some, Result, ok, err, ◌==◌,
  if◌then◌else◌, is_empty, find_map, length, arith, drop,
}
use quad_control.Base.Text.{
  Text, codes, trim, trim_start_while, trim_end_while, split, split_once, strip_prefix, starts_with,
  eq_ignore_ascii_case,
}
use quad_control.Ios.Frames.{Utf8, Stream, Waits, Reads, read_line_opt, read_frame, enough}
use quad_control.Ios.Frames.Laws.{IsFrame, read_frame-IsFrame}
use quad_control.Ios.Slot.{Slot, publish, halt}

-- `trim_start_matches("--")`
unfoldable pub skip_dashes : ℕ → Text → Text
unfolding starts_with
skip_dashes zero t = t
skip_dashes (suc n) t =
    let rest = skip_dashes n (drop 2 t) in if starts_with (codes "--") t then rest else t

abbrev pub unquoted : Text → Text
unquoted t = trim_end_while (λ c. c == b'"') (trim_start_while (λ c. c == b'"') t)

abbrev boundary_part : Text → Option Text
boundary_part part = elim (strip_prefix (codes "boundary=") (trim part)) [
  | none ↦ none
  | some b ↦ some (unquoted b)
]

-- the boundary that a content type names, without dashes before it
unfoldable pub boundary_of : Option Text → Result Text Text
unfolding skip_dashes split trim strip_prefix trim_end_while trim_start_while
boundary_of none = err (codes "MJPEG upstream sent no Content-Type")
boundary_of (some content_type) = elim (find_map boundary_part (split b';' content_type)) [
  | none ↦ err (codes "MJPEG upstream Content-Type has no boundary: " ++ content_type)
  | some b ↦ ok (skip_dashes (length b) b)
]

abbrev content_type_in : Option Text → Option (Text × Text) → Option Text
content_type_in known none = known
content_type_in known (some (name, value)) =
    if eq_ignore_ascii_case (trim name) (codes "content-type") then some (trim value) else known

module _ (u : Utf8) where
  -- the end of the stream is an error here; none: the bound on the lines was reached
  abbrev pub on_header :
      Reads Text
      → (Stream → Text → Option (Stream × Result Text Text))
      → Option (Stream × Result Text Text)
  on_header (s, ok (some line)) next = next s line
  on_header (s, ok none) next = some (s, err (codes "MJPEG upstream closed while reading headers"))
  on_header (s, err e) next = some (s, err e)

  unfoldable pub read_head : ℕ → Option Text → Stream → Option (Stream × Result Text Text)
  unfolding read_line_opt boundary_of split_once eq_ignore_ascii_case trim
  read_head zero known s = none
  read_head (suc fuel) known s = on_header (read_line_opt u s) λ s' line.
      let rest = read_head fuel (content_type_in known (split_once b':' line)) s' in
      if is_empty (trim line) then some (s', boundary_of known) else rest

  unfoldable pub read_upstream_boundary : Stream → Option (Stream × Result Text Text)
  unfolding read_head
  read_upstream_boundary s = read_head (enough u s) none s

  -- what the pump leaves: the slot, and why it failed
  abbrev pub Pumped : Type 0
  Pumped = Option (Slot × Option Text)

  module _ (clock : Slot → ℕ) (others : Slot → Slot) where
    -- `others` is what the other threads do to the slot until the next turn
    abbrev pub on_frame : Waits Text → Slot → (Stream → Slot → Pumped) → Pumped
    on_frame none slot next = none
    on_frame (some (s, ok (some frame))) slot next =
        next s (others (publish (clock slot) frame slot))
    on_frame (some (s, ok none)) slot next = some (halt slot, none)
    on_frame (some (s, err reason)) slot next = some (halt slot, some reason)

    unfoldable pub pump_from : ℕ → Text → Stream → Slot → Pumped
    unfolding read_frame publish halt
    pump_from zero boundary s slot = none
    pump_from (suc fuel) boundary s slot =
        let rest = on_frame (read_frame u boundary s) slot (pump_from fuel boundary) in
        if slot.stopping then some (slot, none) else rest

    abbrev pub with_boundary : Option (Stream × Result Text Text) → Slot → Pumped
    with_boundary none slot = none
    with_boundary (some (s, ok boundary)) slot = pump_from (enough u s) boundary s slot
    with_boundary (some (s, err reason)) slot = some (halt slot, some reason)

    -- after `request_stream`, with what it gave
    unfoldable pub pump_upstream : Result (Unit {0}) Text → Stream → Slot → Pumped
    unfolding pump_from read_upstream_boundary halt
    pump_upstream (err reason) s slot = some (halt slot, some reason)
    pump_upstream (ok _) s slot = with_boundary (read_upstream_boundary s) slot

    -- it comes to an end, and the slot is then halted, with the reason if there is one
    abbrev pub IsHalted : Pumped → Type 0
    IsHalted none = true ≡ false
    IsHalted (some (slot, reason)) = slot.stopping ≡ true

    halted : (slot : Slot) → (halt slot).stopping ≡ true
    unfolding halt
    halted slot = refl

    on_frame-IsHalted :
        (fuel : ℕ) (boundary : Text) (s : Stream) (w : Waits Text) (slot : Slot)
        → IsFrame u s w
        → ((s' : Stream) (slot' : Slot)
            → length s'.bytes < length s.bytes
            → IsHalted (pump_from fuel boundary s' slot'))
        → IsHalted (on_frame w slot (pump_from fuel boundary))
    on_frame-IsHalted fuel boundary s none slot h k = h
    on_frame-IsHalted fuel boundary s (some (s', ok (some frame))) slot h k = k s' _ h.1
    on_frame-IsHalted fuel boundary s (some (s', ok none)) slot h k = halted slot
    on_frame-IsHalted fuel boundary s (some (s', err e)) slot h k = halted slot

    unless_stopped-IsHalted :
        (b : Bool) (slot : Slot) (rest : Pumped)
        → slot.stopping ≡ b
        → IsHalted rest
        → IsHalted (if b then some (slot, none) else rest)
    unless_stopped-IsHalted true slot rest e h = e
    unless_stopped-IsHalted false slot rest e h = h

    pump_from-IsHalted :
        (fuel : ℕ) (boundary : Text) (s : Stream) (slot : Slot)
        → length s.bytes < fuel
        → IsHalted (pump_from fuel boundary s slot)
    unfolding pump_from
    pump_from-IsHalted zero boundary s slot lt = absurd (omega arith)
    pump_from-IsHalted (suc fuel) boundary s slot lt =
        unless_stopped-IsHalted slot.stopping slot _ refl (
          on_frame-IsHalted fuel boundary s (read_frame u boundary s) slot
            (read_frame-IsFrame u boundary s)
            (λ s' slot' less. pump_from-IsHalted fuel boundary s' slot' (omega (arith, less, lt))))

    -- However a stream of bytes ends, and whatever the other threads do to the slot: reading it as far as
    -- its frames go comes to an end, and the slot is then stopping, so that its writers end too.
    pub pump_from-halts :
        (boundary : Text) (s : Stream) (slot : Slot)
        → IsHalted (pump_from (enough u s) boundary s slot)
    pump_from-halts boundary s slot = pump_from-IsHalted (enough u s) boundary s slot (omega arith)
