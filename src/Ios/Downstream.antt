-- ===== src/Ios/Downstream.antt =====
-- `write_downstream` of crates/quadcontrol-ios/src/mjpeg.rs: what one connection of the web
-- view is sent. What the connection asks, which of its writes are
-- accepted, and the frames that the slot gives its writer are parameters.
mod Lines
mod Parts
pub mod ReadBack
use quad_control.Base.{
  ℕ, ◌+◌, Bool, true, false, not, ◌&&◌, List, [], ◌∷◌, ◌++◌, Option, none, some, Result, ok, err,
  if◌then◌else◌, is_empty, length, filter, ◌==◌,
}
use quad_control.Base.Text.{Text, codes, trim}
use quad_control.Base.Text.Decimal.{decimal}

abbrev pub downstream_boundary : Text
downstream_boundary = codes "quadcontrolframe"

abbrev pub crlf : Text
crlf = 13 ∷ 10 ∷ []

abbrev pub response_head : Text
response_head =
    codes "HTTP/1.1 200 OK\r\n"
    ++ codes "Access-Control-Allow-Origin: *\r\n"
    ++ codes "Content-Type: multipart/x-mixed-replace; boundary="
    ++ downstream_boundary
    ++ crlf
    ++ codes "Cache-Control: no-store\r\n"
    ++ codes "Connection: close\r\n\r\n"

-- the headers of a part; a `char` of the source is one byte here
unfoldable pub part_head : ℕ → Text
unfolding decimal
part_head n =
    codes "--"
    ++ (downstream_boundary
        ++ (codes "\r\nContent-Type: image/jpeg\r\nContent-Length: "
            ++ (decimal n ++ (crlf ++ crlf))))

-- the three writes for a frame
unfoldable pub part : Text → Text
unfolding part_head
part frame = part_head (length frame) ++ (frame ++ crlf)

-- A line of the request as `read_line` gives it; none is the end of the stream or an error. Where the list
-- ends, the connection has sent nothing more and is closed.
unfoldable pub read_request : List (Option Text) → Bool
unfolding trim
read_request [] = false
read_request (none ∷ lines) = false
read_request (some line ∷ lines) =
    let rest = read_request lines in if is_empty (trim line) then true else rest

pub record Connection : Type 0 where
  pub can_clone : Bool
  pub request : List (Option Text)
  pub accepts : ℕ → Bool  -- is the write with this number accepted

-- what was written, and whether both directions were shut down
pub record Written : Type 0 where
  pub bytes : Text
  pub is_shut : Bool

abbrev pub shut : Text → Written
shut bytes = record { bytes = bytes; is_shut = true }

module _ (c : Connection) where
  unfoldable pub write_frames : ℕ → Text → List Text → Written
  unfolding part_head
  write_frames i out [] = shut out
  write_frames i out (frame ∷ frames) =
      let head = out ++ part_head (length frame) in
      let body = head ++ frame in
      let rest = write_frames (i + 3) (body ++ crlf) frames in
      if not (c.accepts i)
      then shut out
      else if not (c.accepts (i + 1))
      then shut head
      else if not (c.accepts (i + 2))
      then shut body
      else rest

  -- the frames that `next_frame` gives until the proxy stops
  unfoldable pub write_downstream : List Text → Written
  unfolding read_request write_frames
  write_downstream frames =
      if not c.can_clone
      then shut []
      else if not (read_request c.request)
      then shut []
      else if not (c.accepts 0)
      then shut []
      else write_frames 1 response_head frames
