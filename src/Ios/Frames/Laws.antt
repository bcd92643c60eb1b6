-- ===== src/Ios/Frames/Laws.antt =====
-- The bound on the frames of crates/quadcontrol-ios/src/mjpeg.rs, and that reading one comes to an end.
use quad_control.Base.{
  ℕ, zero, suc, ◌-◌, ◌≤◌, ◌<◌, ◌≡◌, Bool, true, false, ◌&&◌, [], ◌∷◌, ◌++◌, Option, none, some,
  Result, ok, err, ltb, if◌then◌else◌, is_empty, take, length, arith, Bool-cases, inl, inr, ◌==◌,
  length-take, length-drop,
}
use quad_control.Base.Text.{Text, codes, ends_with, trim, split_once}
use quad_control.Ios.Frames.{
  Utf8, Stream, max_frame_bytes, cut_line, Reads, has_newline, as_line, last_line, read_line_opt,
  is_boundary, Waits, on_line, find_boundary, content_length_of, read_headers, is_line_end,
  pop_while, scan_from, scan_to_boundary, cut_short, read_body, body_of, and_then, enough,
  read_frame,
}

abbrev left : {A : Type 0} → Reads A → ℕ
left (s, _) = length s.bytes

-- less is left of the stream after a value, and never more
abbrev Uses : {A : Type 0} → ℕ → Reads A → Type 0
Uses n (s, ok (some a)) = length s.bytes < n
Uses n (s, ok none) = length s.bytes ≤ n
Uses n (s, err e) = length s.bytes ≤ n

cut_line-shorter : (b : ℕ) (bs : Text) → length (cut_line (b ∷ bs)).1 ≤ length bs
unfolding cut_line
cut_line-shorter b bs = elim (Bool-cases (b == 10)) [
  | inl e ↦ rw e (omega arith)
  | inr e ↦ rw e (rest bs)
]
  where
    rest : (bs : Text) → length (cut_line bs).1 ≤ length bs
    rest [] = omega arith
    rest (c ∷ cs) = elim (Bool-cases (c == 10)) [
      | inl e ↦ rw e (omega arith)
      | inr e ↦ rw e (omega (arith, rest cs))
    ]

module _ (u : Utf8) where
  as_line-Uses :
      (n : ℕ) (s : Stream) (r : Result Text Text) → length s.bytes < n → Uses n (as_line u s r)
  as_line-Uses n s (ok line) h = h
  as_line-Uses n s (err e) h = omega (arith, h)

  last_line-Uses :
      (bs : Text) (f : Option Text) (g : Option Text)
      → Uses (length bs) (last_line u (record { bytes = bs; failure = f }) g)
  last_line-Uses bs f (some e) = omega arith
  last_line-Uses [] f none = omega arith
  last_line-Uses (b ∷ bs) f none = as_line-Uses _ _ (u.decode (b ∷ bs)) (omega arith)

  read_line_opt-Uses :
      (bs : Text) (f : Option Text)
      → Uses (length bs) (read_line_opt u (record { bytes = bs; failure = f }))
  unfolding read_line_opt
  read_line_opt-Uses [] f = last_line-Uses [] f f
  read_line_opt-Uses (b ∷ bs) f = elim (Bool-cases (has_newline (b ∷ bs))) [
    | inl e ↦
        rw e
          (as_line-Uses _ _ (u.decode (cut_line (b ∷ bs)).0) (omega (arith, cut_line-shorter b bs)))
    | inr e ↦ rw e (last_line-Uses (b ∷ bs) f f)
  ]

  -- it ends, and leaves no more than there was
  abbrev Ends : {A : Type 0} → ℕ → Waits A → Type 0
  Ends n none = true ≡ false
  Ends n (some r) = Uses n r

  on_line-Ends :
      {A : Type 0} (n : ℕ) (r : Reads Text) (next : Stream → Text → Waits A)
      → Uses n r
      → ((s : Stream) (line : Text) → length s.bytes < n → Ends n (next s line))
      → Ends n (on_line u r next)
  on_line-Ends n (s, ok (some line)) next h k = k s line h
  on_line-Ends n (s, ok none) next h k = h
  on_line-Ends n (s, err e) next h k = h

  if-Ends :
      {A : Type 0} (n : ℕ) (b : Bool) (r : Reads A) (rest : Waits A)
      → Uses n r
      → Ends n rest
      → Ends n (if b then some r else rest)
  if-Ends n true r rest h k = h
  if-Ends n false r rest h k = k

  wider : {A : Type 0} (n k : ℕ) (w : Waits A) → n ≤ k → Ends n w → Ends k w
  wider n k none le h = h
  wider n k (some (s, ok (some a))) le h = omega (arith, le, h)
  wider n k (some (s, ok none)) le h = omega (arith, le, h)
  wider n k (some (s, err e)) le h = omega (arith, le, h)

  find_boundary-Ends :
      (fuel : ℕ) (boundary : Text) (s : Stream)
      → length s.bytes < fuel
      → Ends (length s.bytes) (find_boundary u fuel boundary s)
  unfolding find_boundary
  find_boundary-Ends zero boundary s lt = absurd (omega arith)
  find_boundary-Ends (suc fuel) boundary s lt =
      on_line-Ends (length s.bytes) (read_line_opt u s) _ (read_line_opt-Uses s.bytes s.failure)
        λ s' line less. if-Ends (length s.bytes) (is_boundary u boundary line) _ _ less (
          wider (length s'.bytes) (length s.bytes) (find_boundary u fuel boundary s')
            (omega (arith, less)) (find_boundary-Ends fuel boundary s' (omega (arith, less, lt))))

  read_headers-Ends :
      (fuel : ℕ) (length' : Option ℕ) (s : Stream)
      → length s.bytes < fuel
      → Ends (length s.bytes) (read_headers u fuel length' s)
  unfolding read_headers
  read_headers-Ends zero length' s lt = absurd (omega arith)
  read_headers-Ends (suc fuel) length' s lt =
      on_line-Ends (length s.bytes) (read_line_opt u s) _ (read_line_opt-Uses s.bytes s.failure)
        λ s' line less. if-Ends (length s.bytes) (is_empty (trim line)) _ _ less (
          wider (length s'.bytes) (length s.bytes) (read_headers u fuel (given line) s')
            (omega (arith, less))
            (read_headers-Ends fuel (given line) s' (omega (arith, less, lt))))
    where
      given : Text → Option ℕ
      given line = content_length_of u length' (split_once b':' line)

  -- A frame that is read is within the limit, and something of the stream was used for it.
  abbrev pub IsFrame : Stream → Waits Text → Type 0
  IsFrame s none = true ≡ false
  IsFrame s (some (s', ok (some frame))) =
      (length frame ≤ max_frame_bytes) × (length s'.bytes < length s.bytes)
  IsFrame s (some (s', ok none)) = length s'.bytes ≤ length s.bytes
  IsFrame s (some (s', err e)) = length s'.bytes ≤ length s.bytes

  length-pop_while : (p : ℕ → Bool) (bs : Text) → length (pop_while u p bs) ≤ length bs
  unfolding pop_while
  length-pop_while p [] = omega arith
  length-pop_while p (b ∷ bs) = elim (Bool-cases (is_empty (pop_while u p bs) && p b)) [
    | inl e ↦ rw e (omega arith)
    | inr e ↦ rw e (omega (arith, length-pop_while p bs))
  ]

  scan_from-IsFrame :
      (needle : Text) (failure : Option Text) (frame bytes : Text) (s : Stream)
      → length frame ≤ max_frame_bytes
      → length bytes < length s.bytes
      → IsFrame s (some (scan_from u needle failure frame bytes))
  unfolding scan_from
  scan_from-IsFrame needle (some e) frame [] s small le = omega arith
  scan_from-IsFrame needle none frame [] s small le = elim (Bool-cases (is_empty frame)) [
    | inl e ↦ rw e (omega arith)
    | inr e ↦ rw e (small, omega (arith, le))
  ]
  scan_from-IsFrame needle failure frame (b ∷ bs) s small le =
      let grown = frame ++ b ∷ [] in
      elim (Bool-cases (ltb max_frame_bytes (length grown))) [
        | inl big ↦ rw big (omega (arith, le))
        | inr fits ↦
            let kept : length grown ≤ max_frame_bytes = ground arith in
            elim (Bool-cases (ends_with needle grown)) [
              | inl e ↦
                  let cut = take (length grown - length needle) grown in
                  rw (fits, e)
                    (
                      omega (
                        arith,
                        kept,
                        length-pop_while (is_line_end u) cut,
                        length-take (length grown - length needle) grown,
                      ),
                      omega (arith, le),
                    )
              | inr e ↦
                  rw (fits, e)
                    (scan_from-IsFrame needle failure grown bs s kept (omega (arith, le)))
            ]
      ]

  read_body-IsFrame :
      (n : ℕ) (bs : Text) (f : Option Text) (s : Stream)
      → length bs < length s.bytes
      → IsFrame s (some (read_body u n (record { bytes = bs; failure = f })))
  unfolding read_body
  read_body-IsFrame n bs f s le = elim (Bool-cases (ltb max_frame_bytes n)) [
    | inl big ↦ rw big (omega (arith, le))
    | inr fits ↦ elim (Bool-cases (ltb (length bs) n)) [
      | inl short ↦ rw (fits, short) (cut f)
      | inr whole ↦
          rw (fits, whole) (ground (arith, length-take n bs), omega (arith, le, length-drop n bs))
    ]
  ]
    where
      cut :
          (g : Option Text) → IsFrame s (some (cut_short u (record { bytes = bs; failure = f }) g))
      cut none = omega (arith, le)
      cut (some e) = omega (arith, le)

  body_of-IsFrame :
      (boundary : Text) (n : Option ℕ) (s' s : Stream)
      → length s'.bytes < length s.bytes
      → IsFrame s (some (body_of u boundary n s'))
  unfolding scan_to_boundary
  body_of-IsFrame boundary (some n) s' s le = read_body-IsFrame n s'.bytes s'.failure s le
  body_of-IsFrame boundary none s' s le =
      scan_from-IsFrame (u.encode (codes "--" ++ boundary)) s'.failure [] s'.bytes s (omega arith)
        le

  and_then-IsFrame :
      {A : Type 0} (n : ℕ) (w : Waits A) (next : Stream → A → Waits Text) (s : Stream)
      → Ends n w
      → n ≤ length s.bytes
      → ((s' : Stream) (a : A) → length s'.bytes < n → IsFrame s (next s' a))
      → IsFrame s (and_then u w next)
  and_then-IsFrame n none next s h le k = h
  and_then-IsFrame n (some (s', ok (some a))) next s h le k = k s' a h
  and_then-IsFrame n (some (s', ok none)) next s h le k = omega (arith, h, le)
  and_then-IsFrame n (some (s', err e)) next s h le k = omega (arith, h, le)

  -- Whatever a stream holds, reading a frame comes to an end; a frame that it gives has at most 4 MiB,
  -- and takes at least one byte of the stream.
  pub read_frame-IsFrame : (boundary : Text) (s : Stream) → IsFrame s (read_frame u boundary s)
  unfolding read_frame
  read_frame-IsFrame boundary s =
      and_then-IsFrame (length s.bytes) (find_boundary u (enough u s) boundary s) _ s
        (find_boundary-Ends (enough u s) boundary s (omega arith)) (omega arith)
        λ s₁ found le.
          and_then-IsFrame (length s₁.bytes) (read_headers u (enough u s₁) none s₁) _ s
            (read_headers-Ends (enough u s₁) none s₁ (omega arith)) (omega (arith, le))
            λ s₂ n le₂. body_of-IsFrame boundary n s₂ s (omega (arith, le, le₂))
