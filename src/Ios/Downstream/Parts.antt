-- ===== src/Ios/Downstream/Parts.antt =====
-- One part that `write_downstream` sends is read by `read_frame`, both of
-- crates/quadcontrol-ios/src/mjpeg.rs.
use mathlib.Core.List.{append_assoc}
use quad_control.Base.{
  ℕ, suc, ◌^◌, ◌≤◌, ◌<◌, ◌≡◌, refl, ap, ◌∙◌, Bool, true, false, [], ◌∷◌, ◌++◌, Option, none, some,
  ok, arith, ltb, if◌then◌else◌, is_empty, all, drop, length, length-append,
}
use quad_control.Base.Text.{Text, codes, is_ascii_digit, is_whitespace, trim, parse_uint}
use quad_control.Base.Text.{split_once, eq_ignore_ascii_case}
use quad_control.Base.Text.Decimal.{decimal}
use quad_control.Base.Text.Decimal.Laws.{all-decimal, decimal-cons, parse_uint-decimal}
use quad_control.Ios.Frames.{and_then, enough, body_of}
use quad_control.Ios.Frames.{
  Utf8, Stream, max_frame_bytes, has_newline, read_line_opt, is_boundary, find_boundary,
  content_length_of, read_headers, read_body, read_frame,
}
use quad_control.Ios.Downstream.{downstream_boundary, crlf, part_head, part}
use quad_control.Ios.Downstream.Lines.{
  is_ascii, cut_line-append, has_newline-append, all-append, take-append, drop-append, trim-value,
  trim-filled,
}

module _ (u : Utf8) (decodes : (t : Text) → all is_ascii t ≡ true → u.decode t ≡ ok t) where
  read_line_opt-line :
      (l rest : Text) (failure : Option Text)
      → has_newline l ≡ false
      → all is_ascii l ≡ true
      → read_line_opt u (record { bytes = l ++ 10 ∷ rest; failure = failure })
        ≡ (record { bytes = rest; failure = failure }, ok (some (l ++ 10 ∷ [])))
  unfolding read_line_opt
  read_line_opt-line l rest failure n a =
      rw
        (
          cut_line-append l rest n,
          has_newline-append l rest,
          decodes (l ++ 10 ∷ []) (all-append is_ascii l (10 ∷ []) a refl),
        )
        refl

  find_boundary-line :
      (fuel : ℕ) (rest : Text) (failure : Option Text)
      → find_boundary u
          (suc fuel)
          downstream_boundary
          (record { bytes = codes "--quadcontrolframe\r" ++ 10 ∷ rest; failure = failure })
        ≡ some (record { bytes = rest; failure = failure }, ok (some tt))
  unfolding find_boundary is_boundary
  find_boundary-line fuel rest failure =
      rw (read_line_opt-line (codes "--quadcontrolframe\r") rest failure refl refl) refl

  find_boundary-later :
      (fuel : ℕ) (rest : Text) (failure : Option Text)
      → find_boundary u (suc (suc fuel)) downstream_boundary (record {
        bytes = crlf ++ (codes "--quadcontrolframe\r" ++ 10 ∷ rest);
        failure = failure;
      })
        ≡ some (record { bytes = rest; failure = failure }, ok (some tt))
  unfolding find_boundary is_boundary
  find_boundary-later fuel rest failure =
      rw
        (read_line_opt-line (13 ∷ []) (codes "--quadcontrolframe\r" ++ 10 ∷ rest) failure refl refl)
        (find_boundary-line fuel rest failure)

  read_headers-line :
      (fuel : ℕ) (length : Option ℕ) (l rest : Text) (failure : Option Text)
      → has_newline l ≡ false
      → all is_ascii l ≡ true
      → is_empty (trim (l ++ 10 ∷ [])) ≡ false
      → read_headers u (suc fuel) length (record { bytes = l ++ 10 ∷ rest; failure = failure })
        ≡ read_headers u fuel
            (content_length_of u length (split_once b':' (l ++ 10 ∷ [])))
            (record { bytes = rest; failure = failure })
  unfolding read_headers
  read_headers-line fuel length l rest failure n a filled =
      rw (read_line_opt-line l rest failure n a) (rw filled refl)

  read_headers-end :
      (fuel : ℕ) (length : Option ℕ) (rest : Text) (failure : Option Text)
      → read_headers u (suc fuel) length (record { bytes = crlf ++ rest; failure = failure })
        ≡ some (record { bytes = rest; failure = failure }, ok (some length))
  unfolding read_headers trim
  read_headers-end fuel length rest failure =
      rw (read_line_opt-line (13 ∷ []) rest failure refl refl) refl

  abbrev length_line : ℕ → Text
  length_line n = codes "Content-Length: " ++ (decimal n ++ 13 ∷ [])

  content_length_of-line :
      (n : ℕ)
      → n < 2 ^ 64
      → content_length_of u none (split_once b':' (length_line n ++ 10 ∷ [])) ≡ some n
  unfolding split_once eq_ignore_ascii_case trim
  content_length_of-line n h =
      ap (parse_uint (2 ^ 64)) (trim-value (decimal n) (decimal-cons n) (all-decimal n))
      ∙ parse_uint-decimal (2 ^ 64) n h

  length_line-ascii : (n : ℕ) → all is_ascii (length_line n) ≡ true
  length_line-ascii n =
      all-append is_ascii (codes "Content-Length: ") (decimal n ++ 13 ∷ []) refl
        (all-append is_ascii (decimal n) (13 ∷ []) (digits-ascii (decimal n) (all-decimal n)) refl)
    where
      digits-ascii : (t : Text) → all is_ascii_digit t ≡ true → all is_ascii t ≡ true
      digits-ascii [] h = refl
      digits-ascii (c ∷ t) h = ground (arith, digits-ascii t)

  length_line-newline : (n : ℕ) → has_newline (length_line n) ≡ false
  length_line-newline n = digits_then (decimal n) (all-decimal n)
    where
      digits_then : (t : Text) → all is_ascii_digit t ≡ true → has_newline (t ++ 13 ∷ []) ≡ false
      digits_then [] h = refl
      digits_then (c ∷ t) h = ground (arith, digits_then t)

  -- what a part and what follows it look like to the reader
  abbrev headers : ℕ → Text → Text
  headers n rest = codes "Content-Type: image/jpeg\r" ++ 10 ∷ (length_line n ++ 10 ∷ (crlf ++ rest))

  headers-read :
      (fuel n : ℕ) (rest : Text) (failure : Option Text)
      → n < 2 ^ 64
      → read_headers u
          (suc (suc (suc fuel)))
          none
          (record { bytes = headers n rest; failure = failure })
        ≡ some (record { bytes = rest; failure = failure }, ok (some (some n)))
  unfolding trim is_whitespace split_once eq_ignore_ascii_case
  headers-read fuel n rest failure h =
      read_headers-line (suc (suc fuel)) none (codes "Content-Type: image/jpeg\r")
        (length_line n ++ 10 ∷ (crlf ++ rest)) failure refl refl refl
      ∙ read_headers-line (suc fuel) none (length_line n) (crlf ++ rest) failure
          (length_line-newline n) (length_line-ascii n)
          (trim-filled b'C' ((codes "ontent-Length: " ++ (decimal n ++ 13 ∷ [])) ++ 10 ∷ []) refl)
      ∙ ap (λ l. read_headers u (suc fuel) l (record { bytes = crlf ++ rest; failure = failure }))
          (content_length_of-line n h)
      ∙ read_headers-end fuel (some n) rest failure

  spliced :
      (d frame tail : Text)
      → ((d ++ (crlf ++ crlf)) ++ (frame ++ crlf)) ++ tail
        ≡ (d ++ 13 ∷ []) ++ 10 ∷ (crlf ++ (frame ++ (crlf ++ tail)))
  spliced d frame tail = simp append_assoc

  part-append :
      (frame tail : Text)
      → part frame ++ tail
        ≡ codes "--quadcontrolframe\r" ++ 10 ∷ headers (length frame) (frame ++ (crlf ++ tail))
  unfolding part part_head
  part-append frame tail =
      ap
        (λ (t : Text).
          codes "--quadcontrolframe\r\nContent-Type: image/jpeg\r\nContent-Length: " ++ t)
        (spliced (decimal (length frame)) frame tail)

  read_body-frame :
      (frame tail : Text) (failure : Option Text)
      → length frame ≤ max_frame_bytes
      → read_body u (length frame) (record { bytes = frame ++ (crlf ++ tail); failure = failure })
        ≡ (record { bytes = crlf ++ tail; failure = failure }, ok (some frame))
  unfolding read_body
  read_body-frame frame tail failure h =
      let small : ltb max_frame_bytes (length frame) ≡ false = ground arith in
      let all_there : ltb (length (frame ++ (crlf ++ tail))) (length frame) ≡ false =
        ground (arith, length-append frame (crlf ++ tail)) in
      rw (small, all_there, drop-append frame (crlf ++ tail), take-append frame (crlf ++ tail)) refl

  -- the frame behind a line that was recognised
  after_boundary :
      (s : Stream) (frame tail : Text) (failure : Option Text)
      → length frame ≤ max_frame_bytes
      → find_boundary u (enough u s) downstream_boundary s
        ≡ some (
          record { bytes = headers (length frame) (frame ++ (crlf ++ tail)); failure = failure },
          ok (some tt),
        )
      → read_frame u downstream_boundary s
        ≡ some (record { bytes = crlf ++ tail; failure = failure }, ok (some frame))
  unfolding read_frame
  after_boundary s frame tail failure h found =
      let rest = frame ++ (crlf ++ tail) in
      ap
        (λ r. and_then u r (λ s₁ _.
          and_then u (read_headers u (enough u s₁) none s₁)
            (λ s₂ n. some (body_of u downstream_boundary n s₂))))
        found
      ∙ ap (λ r. and_then u r (λ s₂ n. some (body_of u downstream_boundary n s₂)))
          (headers-read (length (drop 2 (headers (length frame) rest))) (length frame) rest failure
            (omega arith))
      ∙ ap some (read_body-frame frame tail failure h)

  -- A part is read as its frame, at the beginning of a stream and after the line end of the part before it.
  pub read_frame-part :
      (lead : Bool) (frame tail : Text) (failure : Option Text)
      → length frame ≤ max_frame_bytes
      → read_frame u downstream_boundary (record {
        bytes = if lead then crlf ++ (part frame ++ tail) else part frame ++ tail;
        failure = failure;
      })
        ≡ some (record { bytes = crlf ++ tail; failure = failure }, ok (some frame))
  read_frame-part false frame tail failure h = rw (part-append frame tail) (
      after_boundary _ frame tail failure h
        (find_boundary-line _ (headers (length frame) (frame ++ (crlf ++ tail))) failure))
  read_frame-part true frame tail failure h = rw (part-append frame tail) (
      after_boundary _ frame tail failure h
        (find_boundary-later _ (headers (length frame) (frame ++ (crlf ++ tail))) failure))
