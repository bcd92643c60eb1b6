-- ===== src/Process/Ring.antt =====
-- `RingBuffer` and `drain_stderr` of crates/quadcontrol-process/src/lib.rs.
use quad_control.Base.{
  ℕ, zero, suc, ◌-◌, ◌≤◌, ◌<◌, ◌≡◌, refl, sym, ◌∙◌, List, [], ◌∷◌, ◌++◌, Result, ok, err, arith,
  ◌==◌, if◌then◌else◌, is_empty, length, drop, length-append, length-drop,
}
use mathlib.Core.List.{append-nil, append_assoc}
use quad_control.Base.Text.{Text}
use quad_control.Os.{IoError}

pub record RingBuffer : Type 0 where
  pub bytes : Text  -- the oldest first
  pub limit : ℕ

unfoldable pub new : ℕ → RingBuffer
new limit = record { bytes = []; limit = limit }

-- one turn of the loop of `push`
push_byte : RingBuffer → ℕ → RingBuffer
push_byte r b =
    let kept = if length r.bytes == r.limit then drop 1 r.bytes else r.bytes in
    record r { bytes = kept ++ b ∷ [] }

unfoldable pub push : RingBuffer → Text → RingBuffer
unfolding push_byte
push r [] = r
push r (b ∷ chunk) = push (push_byte r b) chunk

-- The answers of the reader, up to the last one that was asked for.
unfoldable pub drain_stderr : List (Result Text IoError) → RingBuffer → RingBuffer
unfolding push
drain_stderr [] r = r
drain_stderr (err e ∷ rest) r = r
drain_stderr (ok chunk ∷ rest) r =
    let more = drain_stderr rest (push r chunk) in if is_empty chunk then r else more

-- what was read: the chunks before the end of the stream or the first error
abbrev pub stream : List (Result Text IoError) → Text
stream [] = []
stream (err e ∷ rest) = []
stream (ok chunk ∷ rest) = let more = chunk ++ stream rest in if is_empty chunk then [] else more

-- The last `n` elements.
abbrev pub last : ℕ → Text → Text
last n t = drop (length t - n) t

drop-append : (n : ℕ) (xs ys : Text) → n ≤ length xs → drop n (xs ++ ys) ≡ drop n xs ++ ys
drop-append zero xs ys h = refl
drop-append (suc n) [] ys h = ground arith
drop-append (suc n) (x ∷ xs) ys h = drop-append n xs ys (omega arith)

drop-suc : (n : ℕ) (xs : Text) → drop 1 (drop n xs) ≡ drop (suc n) xs
drop-suc zero xs = refl
drop-suc (suc n) [] = refl
drop-suc (suc n) (x ∷ xs) = drop-suc n xs

drop-nil : (n : ℕ) → drop {A = ℕ} n [] ≡ []
drop-nil zero = refl
drop-nil (suc n) = refl

push_byte-last :
    (r : RingBuffer) (t : Text) (b : ℕ)
    → 0 < r.limit
    → r.bytes ≡ last r.limit t
    → (push_byte r b).bytes ≡ last r.limit (t ++ b ∷ [])
unfolding push_byte
push_byte-last r t b h e = ground (
  arith,
  length-append t (b ∷ []),
  length-drop (length t - r.limit) t,
  drop-append (length t - r.limit) t (b ∷ []),
  drop-append (suc (length t - r.limit)) t (b ∷ []),
  drop-suc (length t - r.limit) t,
)

push-limit : (r : RingBuffer) (chunk : Text) → (push r chunk).limit ≡ r.limit
unfolding push push_byte
push-limit r [] = refl
push-limit r (b ∷ chunk) = push-limit (push_byte r b) chunk

push-last :
    (r : RingBuffer) (t : Text) (chunk : Text)
    → 0 < r.limit
    → r.bytes ≡ last r.limit t
    → (push r chunk).bytes ≡ last r.limit (t ++ chunk)
unfolding push
push-last r t [] h e = rw (append-nil t) e
push-last r t (b ∷ chunk) h e =
    rw (sym (append_assoc t (b ∷ []) chunk))
      (push-last (push_byte r b) (t ++ b ∷ []) chunk h (push_byte-last r t b h e))

drain-last :
    (limit : ℕ) (r : RingBuffer) (t : Text) (answers : List (Result Text IoError))
    → 0 < limit
    → r.limit ≡ limit
    → r.bytes ≡ last limit t
    → (drain_stderr answers r).bytes ≡ last limit (t ++ stream answers)
unfolding drain_stderr
drain-last limit r t [] h l e = rw (append-nil t) e
drain-last limit r t (err x ∷ rest) h l e = rw (append-nil t) e
drain-last limit r t (ok [] ∷ rest) h l e = rw (append-nil t) e
drain-last limit r t (ok (b ∷ chunk) ∷ rest) h l e =
    rw (sym (append_assoc t (b ∷ chunk) (stream rest))) (
      drain-last limit (push r (b ∷ chunk)) (t ++ b ∷ chunk) rest h (push-limit r (b ∷ chunk) ∙ l)
        (ground (arith, push-last r t (b ∷ chunk))))

-- What is drained into a new buffer with a positive limit is the last bytes of the stream up to
-- that limit: all of it where the stream is no longer than the limit.
pub drain_stderr-last :
    (limit : ℕ) (answers : List (Result Text IoError))
    → 0 < limit
    → (drain_stderr answers (new limit)).bytes ≡ last limit (stream answers)
unfolding new drain_stderr
drain_stderr-last limit answers h =
    drain-last limit (new limit) [] answers h refl (sym (drop-nil (0 - limit)))
