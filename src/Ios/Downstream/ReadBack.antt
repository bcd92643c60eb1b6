-- ===== src/Ios/Downstream/ReadBack.antt =====
-- The frames that `write_downstream` sends are read by `read_frame`, both of
-- crates/quadcontrol-ios/src/mjpeg.rs.
use mathlib.Core.List.{append_assoc, append-nil}
use quad_control.Base.{
  ℕ, zero, suc, ◌+◌, ◌≤◌, ◌≡◌, refl, sym, ap, ◌∙◌, Bool, true, false, List, [], ◌∷◌, ◌++◌, Option,
  none, some, ok, err, if◌then◌else◌, All, all, length,
}
use quad_control.Base.Text.{Text}
use quad_control.Ios.Frames.{Waits}
use quad_control.Ios.Frames.{Utf8, Stream, max_frame_bytes, read_frame}
use quad_control.Ios.Downstream.{
  downstream_boundary, crlf, part_head, part, response_head, Connection, Written, shut,
  read_request, write_frames, write_downstream,
}
use quad_control.Ios.Downstream.Lines.{is_ascii}
use quad_control.Ios.Downstream.Parts.{read_frame-part}

-- the parts that are written for some frames
abbrev pub parts : List Text → Text
parts [] = []
parts (frame ∷ frames) = part frame ++ parts frames

abbrev next_of : Waits Text → (Stream → List Text) → List Text
next_of (some (s, ok (some frame))) again = frame ∷ again s
next_of (some (s, ok none)) again = []
next_of (some (s, err e)) again = []
next_of none again = []

-- the frames of a stream that is read so many times
unfoldable pub read_frames : Utf8 → ℕ → Stream → List Text
unfolding read_frame
read_frames u zero s = []
read_frames u (suc n) s = next_of (read_frame u downstream_boundary s) (read_frames u n)

abbrev pub Small : List Text → Type 0
Small = All (λ frame. length frame ≤ max_frame_bytes)

module _ (u : Utf8) (decodes : (t : Text) → all is_ascii t ≡ true → u.decode t ≡ ok t) where
  read_frames-parts :
      (lead : Bool) (frames : List Text) (failure : Option Text)
      → Small frames
      → read_frames u (length frames) (record {
        bytes = if lead then crlf ++ parts frames else parts frames;
        failure = failure;
      })
        ≡ frames
  unfolding read_frames
  read_frames-parts lead [] failure h = refl
  read_frames-parts lead (frame ∷ frames) failure (h, hs) =
      ap (λ r. next_of r (read_frames u (length frames)))
        (read_frame-part u decodes lead frame (parts frames) failure h)
      ∙ ap {B = List Text} (λ r. frame ∷ r) (read_frames-parts true frames failure hs)

write_frames-accepted :
    (c : Connection)
    → ((i : ℕ) → c.accepts i ≡ true)
    → (i : ℕ) (out : Text) (frames : List Text)
    → write_frames c i out frames ≡ shut (out ++ parts frames)
unfolding write_frames part
write_frames-accepted c a i out [] = ap shut (sym (append-nil out))
write_frames-accepted c a i out (frame ∷ frames) =
    rw (a i, a (i + 1), a (i + 2))
      (write_frames-accepted c a (i + 3) _ frames
        ∙ ap shut (regrouped out (part_head (length frame)) frame (parts frames)))
  where
    regrouped : (a b c d : Text) → (((a ++ b) ++ c) ++ crlf) ++ d ≡ a ++ ((b ++ (c ++ crlf)) ++ d)
    regrouped a b c d = simp append_assoc

-- A connection that has asked for the stream and accepts all that is written is sent the head of the answer and
-- then, for each frame, a part from which the proxy's own reader of frames reads that frame back, byte for
-- byte and in order, where no frame is larger than the reader takes.
pub write_downstream-read_frames :
    (u : Utf8)
    → ((t : Text) → all is_ascii t ≡ true → u.decode t ≡ ok t)
    → (c : Connection) → c.can_clone ≡ true
    → read_request c.request ≡ true
    → ((i : ℕ) → c.accepts i ≡ true)
    → (frames : List Text) → Small frames
    → (sent : Text) × ((write_downstream c frames).bytes ≡ response_head ++ sent)
      × (read_frames u (length frames) (record { bytes = sent; failure = none }) ≡ frames)
unfolding write_downstream
write_downstream-read_frames u decodes c clones asks accepts frames small = (
  parts frames,
  rw (clones, asks, accepts 0)
      (ap (λ (w : Written). w.bytes) (write_frames-accepted c accepts 1 response_head frames)),
  read_frames-parts u decodes false frames none small,
)
