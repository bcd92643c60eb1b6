-- ===== src/Ios/Slot/Delivery.antt =====
-- The sequences of what the threads of crates/quadcontrol-ios/src/mjpeg.rs do, what a writer receives,
-- and what becomes of every frame.
use quad_control.Base.{
  ℕ, suc, ◌+◌, ◌-◌, ◌≤◌, ◌<◌, ◌≡◌, refl, Bool, true, false, not, ◌&&◌, List, [], ◌∷◌, Option, none,
  some, ltb, ◌==◌, if◌then◌else◌, length, arith, ltb→lt, lt→ltb, ◌∙◌, Bool-cases, inl, inr, ◌⊎◌,
}
use quad_control.Base.Text.{Text}
use quad_control.Ios.Slot.{
  Slot, new, is_unseen, publish, Poll, stopped, waits, takes, next_frame, join, leave, halt,
}

pub data Event : Type 0 where
  publishes : (now : ℕ) (frame : Text) → Event
  polls : Event  -- by the writer that is followed
  others : (last_seq : ℕ) → Event  -- a poll by another writer
  joins leaves halts : Event

-- The slot, the frames published (the newest first), the number that the followed writer has seen and
-- what it has received (the newest first), and how many frames were overwritten with no writer there,
-- and how many were taken by someone.
pub record World : Type 0 where
  pub slot : Slot
  pub published : List Text
  pub last_seq : ℕ
  pub received : List (ℕ × Option Text)
  pub missed : ℕ
  pub seen : ℕ

abbrev begin : World
begin = record { slot = new; published = []; last_seq = 0; received = []; missed = 0; seen = 0 }

took : Poll → World → World
took stopped w = w
took waits w = w
took (takes seq frame) w = record w { last_seq = seq; received = (seq, frame) ∷ w.received }

abbrev pub count : Bool → ℕ
count b = if b then 1 else 0

abbrev first_take : ℕ → Slot → Bool
first_take last_seq s = not s.stopping && ltb last_seq s.seq && not s.consumed

unfoldable pub step : Event → World → World
unfolding publish next_frame took join leave halt
step (publishes now frame) w = record w {
  slot = publish now frame w.slot;
  published = frame ∷ w.published;
  missed = w.missed + count (is_unseen w.slot && not (ltb 0 w.slot.writers));
}
step polls w = took (next_frame w.last_seq w.slot).1 (record w {
  slot = (next_frame w.last_seq w.slot).0;
  seen = w.seen + count (first_take w.last_seq w.slot);
})
step (others last_seq) w = record w {
  slot = (next_frame last_seq w.slot).0;
  seen = w.seen + count (first_take last_seq w.slot);
}
step joins w = record w { slot = join w.slot }
step leaves w = record w { slot = leave w.slot }
step halts w = record w { slot = halt w.slot }

-- the events, the last one first
unfoldable pub run : List Event → World
unfolding step new
run [] = begin
run (e ∷ before) = step e (run before)

-- The frame with a number, counted from 1.
abbrev pub frame_at : List Text → ℕ → Option Text
frame_at [] n = none
frame_at (frame ∷ before) n =
    let rest = frame_at before n in if n == suc (length before) then some frame else rest

-- Numbers that fall from the newest to the oldest, each with the frame published under it.
abbrev pub Delivered : List Text → ℕ → List (ℕ × Option Text) → Type 0
Delivered published bound [] = Unit
Delivered published bound ((n, frame) ∷ rest) =
    (n ≤ bound) × (0 < n) × (frame ≡ frame_at published n) × Delivered published (n - 1) rest

Delivered-weaken :
    (published : List Text) (a b : ℕ) (received : List (ℕ × Option Text))
    → a ≤ b
    → Delivered published a received
    → Delivered published b received
Delivered-weaken published a b [] h d = d
Delivered-weaken published a b ((n, frame) ∷ rest) h (le, pos, e, d) = (omega arith, pos, e, d)

frame_at-older :
    (frame : Text) (published : List Text) (n : ℕ)
    → n ≤ length published
    → frame_at (frame ∷ published) n ≡ frame_at published n
frame_at-older frame published n h = ground arith

Delivered-publish :
    (frame : Text) (published : List Text) (b : ℕ) (received : List (ℕ × Option Text))
    → b ≤ length published
    → Delivered published b received
    → Delivered (frame ∷ published) b received
Delivered-publish frame published b [] h d = d
Delivered-publish frame published b ((n, f) ∷ rest) h (le, pos, e, d) = (
  le,
  pos,
  rw (frame_at-older frame published n (omega arith)) e,
  Delivered-publish frame published (n - 1) rest (omega arith) d,
)

-- the frames dropped, missed, seen and still in the slot
abbrev total : World → ℕ
total w = w.slot.drops + w.missed + w.seen + count (is_unseen w.slot)

Inv : World → Type 0
Inv w =
    (w.slot.seq ≡ length w.published)
    × (w.slot.frame ≡ frame_at w.published w.slot.seq)
    × (w.last_seq ≤ w.slot.seq)
    × Delivered w.published w.last_seq w.received
    × (total w ≡ w.slot.seq)

next_frame-cases :
    (last_seq : ℕ) (s : Slot)
    → ((next_frame last_seq s ≡ (record s { consumed = true }, takes s.seq s.frame))
        × (last_seq < s.seq)
        × (first_take last_seq s ≡ is_unseen s))
      ⊎ ((next_frame last_seq s ≡ (s, stopped)) × (first_take last_seq s ≡ false))
      ⊎ ((next_frame last_seq s ≡ (s, waits)) × (first_take last_seq s ≡ false))
unfolding next_frame
next_frame-cases last_seq s = elim (Bool-cases s.stopping) [
  | inl e ↦ rw e (inr (inl (refl, refl)))
  | inr e ↦ elim (Bool-cases (ltb last_seq s.seq)) [
    | inl e₁ ↦
        rw (e, e₁)
          (let less = ltb→lt last_seq s.seq e₁ in
            inl (refl, less, rw (lt→ltb 0 s.seq (omega arith)) refl))
    | inr e₁ ↦ rw (e, e₁) (inr (inr (refl, refl)))
  ]
]

publish-unseen : (now : ℕ) (frame : Text) (s : Slot) → is_unseen (publish now frame s) ≡ true
unfolding publish
publish-unseen now frame s = ground arith

taken-seen : (s : Slot) → is_unseen (record s { consumed = true }) ≡ false
taken-seen s = ground arith

publish-total :
    (now : ℕ) (frame : Text) (w : World) → total (step (publishes now frame) w) ≡ total w + 1
unfolding step publish
publish-total now frame w =
    rw (publish-unseen now frame w.slot) (elim (Bool-cases (is_unseen w.slot)) [
      | inl e ↦ elim (Bool-cases (ltb 0 w.slot.writers)) [
        | inl e₁ ↦ rw (e, e₁) (omega arith)
        | inr e₁ ↦ rw (e, e₁) (omega arith)
      ]
      | inr e ↦ rw e (omega arith)
    ])

step-Inv : (e : Event) (w : World) → Inv w → Inv (step e w)
unfolding step Inv
step-Inv (publishes now frame) w (q, f, l, d, t) = (
  ground arith,
  ground arith,
  omega arith,
  Delivered-publish frame w.published w.last_seq w.received (omega arith) d,
  publish-total now frame w ∙ rw t refl,
)
step-Inv polls w (q, f, l, d, t) = elim (next_frame-cases w.last_seq w.slot) [
  | inl (e, less, new_take) ↦
      rw (e, new_take)
        (
          q,
          f,
          omega arith,
          (
            omega arith,
            omega arith,
            f,
            Delivered-weaken w.published w.last_seq (w.slot.seq - 1) w.received (omega arith) d,
          ),
          rw (taken-seen w.slot) (omega (arith, t)),
        )
  | inr (inl (e, none_new)) ↦ rw (e, none_new) (q, f, l, d, omega (arith, t))
  | inr (inr (e, none_new)) ↦ rw (e, none_new) (q, f, l, d, omega (arith, t))
]
step-Inv (others last_seq) w (q, f, l, d, t) = elim (next_frame-cases last_seq w.slot) [
  | inl (e, less, new_take) ↦
      rw (e, new_take) (q, f, l, d, rw (taken-seen w.slot) (omega (arith, t)))
  | inr (inl (e, none_new)) ↦ rw (e, none_new) (q, f, l, d, omega (arith, t))
  | inr (inr (e, none_new)) ↦ rw (e, none_new) (q, f, l, d, omega (arith, t))
]
step-Inv joins w h = h
step-Inv leaves w h = h
step-Inv halts w h = h

run-Inv : (events : List Event) → Inv (run events)
unfolding run Inv new
run-Inv [] = ground arith
run-Inv (e ∷ before) = step-Inv e (run before) (run-Inv before)

-- In every order of the threads' steps, a writer receives frames under rising numbers, none twice, each
-- the frame that was published under its number; the number in the slot is that of the frames
-- published; and each of these is counted once: as dropped, as overwritten untaken while there was no
-- writer, as taken by some writer, or as the one that stands in the slot untaken.
pub run-accounts :
    (events : List Event)
    → Delivered (run events).published (run events).slot.seq (run events).received
      × ((run events).slot.seq ≡ length (run events).published)
      × ((run events).slot.drops
            + (run events).missed
            + (run events).seen
            + count (is_unseen (run events).slot)
          ≡ length (run events).published)
unfolding Inv
run-accounts events =
    let (q, f, l, d, t) = run-Inv events in
    (
      Delivered-weaken (run events).published (run events).last_seq (run events).slot.seq
          (run events).received l d,
      q,
      t ∙ q,
    )
