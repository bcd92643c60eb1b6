-- ===== src/Ios/Frames.antt =====
-- The reader of the device's MJPEG stream in crates/quadcontrol-ios/src/mjpeg.rs. A stream is the bytes that are
-- still to come, and what follows them: the end, or an error.
pub mod Laws
pub mod Pump
use quad_control.Base.{
  ℕ, zero, suc, ◌+◌, ◌-◌, ◌*◌, ◌^◌, Bool, true, false, not, ◌&&◌, ◌||◌, List, [], ◌∷◌, ◌++◌, Option,
  none, some, Result, ok, err, ltb, ◌==◌, if◌then◌else◌, is_empty, any, take, drop, length,
}
use quad_control.Base.Text.{
  Text, codes, trim, trim_end, trim_end_while, trim_start_while, ends_with, starts_with, contains,
  split, split_once, eq_ignore_ascii_case, parse_uint, strip_prefix,
}
use quad_control.Base.Text.Decimal.{decimal}

-- UTF-8: a text of its bytes, if they are one, and its bytes
pub record Utf8 : Type 0 where
  pub decode : Text → Result Text Text
  pub encode : Text → Text

pub record Stream : Type 0 where
  pub bytes : Text
  pub failure : Option Text

abbrev pub max_frame_bytes : ℕ
max_frame_bytes = 4 * 1024 * 1024

abbrev pub read_failed : Text → Text
read_failed e = codes "MJPEG upstream read failed: " ++ e

-- the first line with its newline, and the rest
unfoldable pub cut_line : Text → Text × Text
cut_line [] = ([], [])
cut_line (b ∷ bs) =
    let (line, rest) = cut_line bs in if b == 10 then (b ∷ [], bs) else (b ∷ line, rest)

-- ok none: the stream has ended
abbrev pub Reads : Type 0 → Type 0
Reads A = Stream × Result (Option A) Text

-- none: the bound on the number of lines was reached
abbrev pub Waits : Type 0 → Type 0
Waits A = Option (Reads A)

abbrev pub has_newline : Text → Bool
has_newline = any (λ b. b == 10)

module _ (u : Utf8) where
  abbrev pub as_line : Stream → Result Text Text → Reads Text
  as_line s (ok line) = (s, ok (some line))
  as_line s (err e) = (s, err (read_failed e))

  -- a line that is not ended
  abbrev pub last_line : Stream → Option Text → Reads Text
  last_line s (some e) = (record s { bytes = [] }, err (read_failed e))
  last_line s none =
      if is_empty s.bytes
      then (s, ok none)
      else as_line (record s { bytes = [] }) (u.decode s.bytes)

  unfoldable pub read_line_opt : Stream → Reads Text
  unfolding cut_line
  read_line_opt s =
      let (line, rest) = cut_line s.bytes in
      if has_newline s.bytes
      then as_line (record s { bytes = rest }) (u.decode line)
      else last_line s s.failure

  -- `trim_end_matches("--")`
  unfoldable pub trim_dashes : ℕ → Text → Text
  unfolding ends_with
  trim_dashes zero t = t
  trim_dashes (suc n) t =
      let rest = trim_dashes n (take (length t - 2) t) in
      if ends_with (codes "--") t then rest else t

  unfoldable pub is_boundary : Text → Text → Bool
  unfolding trim_dashes trim_end ends_with contains
  is_boundary boundary line =
      ends_with boundary (trim_dashes (length line) (trim_end line)) && contains (codes "--") line

  abbrev pub on_line : {A : Type 0} → Reads Text → (Stream → Text → Waits A) → Waits A
  on_line (s, ok (some line)) next = next s line
  on_line (s, ok none) next = some (s, ok none)
  on_line (s, err e) next = some (s, err e)

  unfoldable pub find_boundary : ℕ → Text → Stream → Waits (Unit {0})
  unfolding read_line_opt is_boundary
  find_boundary zero boundary s = none
  find_boundary (suc fuel) boundary s = on_line (read_line_opt s) λ s' line.
      let rest = find_boundary fuel boundary s' in
      if is_boundary boundary line then some (s', ok (some tt)) else rest

  abbrev pub content_length_of : Option ℕ → Option (Text × Text) → Option ℕ
  content_length_of length none = length
  content_length_of length (some (name, value)) =
      if eq_ignore_ascii_case (trim name) (codes "content-length")
      then parse_uint (2 ^ 64) (trim value)
      else length

  -- the headers of a part, and the length they give
  unfoldable pub read_headers : ℕ → Option ℕ → Stream → Waits (Option ℕ)
  unfolding read_line_opt trim split_once eq_ignore_ascii_case parse_uint
  read_headers zero length s = none
  read_headers (suc fuel) length s = on_line (read_line_opt s) λ s' line.
      let rest = read_headers fuel (content_length_of length (split_once b':' line)) s' in
      if is_empty (trim line) then some (s', ok (some length)) else rest

  abbrev pub is_line_end : ℕ → Bool
  is_line_end b = b == 13 || b == 10

  -- `while frame.last().is_some_and(..) { frame.pop() }`
  unfoldable pub pop_while : (ℕ → Bool) → Text → Text
  pop_while p [] = []
  pop_while p (b ∷ bs) = let kept = pop_while p bs in if is_empty kept && p b then [] else b ∷ kept

  -- byte by byte, `frame` being what was read; `failure` is what follows the bytes
  unfoldable pub scan_from : Text → Option Text → Text → Text → Reads Text
  unfolding ends_with pop_while
  scan_from needle (some e) frame [] =
      (record { bytes = []; failure = some e }, err (read_failed e))
  scan_from needle none frame [] =
      (record { bytes = []; failure = none }, ok (if is_empty frame then none else some frame))
  scan_from needle failure frame (b ∷ bs) =
      let grown = frame ++ b ∷ [] in
      let rest = scan_from needle failure grown bs in
      if ltb max_frame_bytes (length grown)
      then (
        record { bytes = bs; failure = failure },
        err (
            codes "MJPEG frame exceeded the "
            ++ decimal max_frame_bytes
            ++ codes " byte limit with no boundary in sight"),
      )
      else if ends_with needle grown
      then (
        record { bytes = bs; failure = failure },
        ok (some (pop_while is_line_end (take (length grown - length needle) grown))),
      )
      else rest

  unfoldable pub scan_to_boundary : Text → Stream → Reads Text
  unfolding scan_from
  scan_to_boundary boundary s = scan_from (u.encode (codes "--" ++ boundary)) s.failure [] s.bytes

  -- `read_exact`: too few bytes are the end, or the error
  abbrev pub cut_short : Stream → Option Text → Reads Text
  cut_short s none = (record s { bytes = [] }, ok none)
  cut_short s (some e) = (record s { bytes = [] }, err (read_failed e))

  unfoldable pub read_body : ℕ → Stream → Reads Text
  read_body n s =
      if ltb max_frame_bytes n
      then (
        s,
        err (
            codes "MJPEG frame of "
            ++ decimal n
            ++ codes " bytes exceeds the "
            ++ decimal max_frame_bytes
            ++ codes " byte limit"),
      )
      else if ltb (length s.bytes) n
      then cut_short s s.failure
      else (record s { bytes = drop n s.bytes }, ok (some (take n s.bytes)))

  abbrev pub body_of : Text → Option ℕ → Stream → Reads Text
  body_of boundary (some n) s = read_body n s
  body_of boundary none s = scan_to_boundary boundary s

  abbrev pub and_then : {A B : Type 0} → Waits A → (Stream → A → Waits B) → Waits B
  and_then none next = none
  and_then (some (s, ok (some a))) next = next s a
  and_then (some (s, ok none)) next = some (s, ok none)
  and_then (some (s, err e)) next = some (s, err e)

  -- a line takes at least one byte
  abbrev pub enough : Stream → ℕ
  enough s = suc (length s.bytes)

  unfoldable pub read_frame : Text → Stream → Waits Text
  unfolding find_boundary read_headers read_body scan_to_boundary
  read_frame boundary s = and_then (find_boundary (enough s) boundary s) λ s₁ found.
      and_then (read_headers (enough s₁) none s₁) λ s₂ length. some (body_of boundary length s₂)
