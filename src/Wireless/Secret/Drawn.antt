-- ===== src/Wireless/Secret/Drawn.antt =====
-- What `random_text` of crates/quadcontrol-android/src/wireless.rs makes of random bytes.
use mathlib.Core.List.{append-nil, append_assoc}
use quad_control.Base.{
  ℕ, zero, suc, ◌+◌, ◌-◌, ◌≡◌, refl, ap, sym, ◌∙◌, true, false, inl, inr, List, [], ◌∷◌, ◌++◌, map,
  Option, none, some, leb, ltb, ◌==◌, if◌then◌else◌, length, take, filter, arith, Bool-cases,
  length-append, length-take,
}
use quad_control.Base.Text.{Text}
use quad_control.Wireless.Secret.{letter, fill, fill_from, random_text}

-- the letters of the bytes that are not refused
abbrev pub letters : List ℕ → Text
letters bytes = map letter (filter (λ byte. ltb byte 248) bytes)

abbrev pub concat : List (List ℕ) → List ℕ
concat [] = []
concat (bytes ∷ buffers) = bytes ++ concat buffers

-- the first of them, where there are enough
abbrev pub drawn : ℕ → Text → Text → Option Text
drawn n before all = if leb n (length all) then some (before ++ take n all) else none

take-append : (n : ℕ) (xs ys : Text) → take n (xs ++ ys) ≡ take n xs ++ take (n - length xs) ys
take-append zero xs ys = let none_left : 0 - length xs ≡ 0 = omega arith in rw none_left refl
take-append (suc n) [] ys = let all_left : suc n - 0 ≡ suc n = omega arith in rw all_left refl
take-append (suc n) (x ∷ xs) ys =
    let left : suc n - suc (length xs) ≡ n - length xs = omega arith in
    rw left (ap (λ t. x ∷ t) (take-append n xs ys))

letters-append : (xs ys : List ℕ) → letters (xs ++ ys) ≡ letters xs ++ letters ys
letters-append [] ys = refl
letters-append (x ∷ xs) ys = elim (Bool-cases (ltb x 248)) [
  | inl e ↦ rw e (ap (λ t. letter x ∷ t) (letters-append xs ys))
  | inr e ↦ rw e (letters-append xs ys)
]

-- The buffer goes on exactly while letters are missing.
fill-take :
    (k n : ℕ) (output : Text) (bytes : List ℕ)
    → length output + suc k ≡ n
    → fill n output bytes ≡ output ++ take (suc k) (letters bytes)
unfolding fill
fill-take k n output [] h = sym (append-nil output)
fill-take zero n output (b ∷ bytes) h = elim (Bool-cases (ltb b 248)) [
  | inr e ↦ rw e (fill-take zero n output bytes h)
  | inl e ↦
      let full : (length (output ++ letter b ∷ []) == n) ≡ true =
        ground (arith, length-append output (letter b ∷ [])) in
      rw (e, full) refl
]
fill-take (suc j) n output (b ∷ bytes) h = elim (Bool-cases (ltb b 248)) [
  | inr e ↦ rw e (fill-take (suc j) n output bytes h)
  | inl e ↦
      let missing : (length (output ++ letter b ∷ []) == n) ≡ false =
        ground (arith, length-append output (letter b ∷ [])) in
      rw (e, missing)
        (fill-take j n (output ++ letter b ∷ []) bytes
            (omega (arith, length-append output (letter b ∷ [])))
          ∙ append_assoc output (letter b ∷ []) (take (suc j) (letters bytes)))
]

drawn-split :
    (m : ℕ) (output : Text) (xs ys : Text)
    → drawn (m - length xs) (output ++ take m xs) ys ≡ drawn m output (xs ++ ys)
drawn-split m output xs ys =
    let same : leb m (length (xs ++ ys)) ≡ leb (m - length xs) (length ys) =
      ground (arith, length-append xs ys) in
    rw (same, take-append m xs ys, append_assoc output (take m xs) (take (m - length xs) ys)) refl

fill_from-drawn :
    (buffers : List (List ℕ)) (m n : ℕ) (output : Text)
    → length output + m ≡ n
    → fill_from n output buffers ≡ drawn m output (letters (concat buffers))
unfolding fill_from
fill_from-drawn [] zero n output h =
    let full : ltb (length output) n ≡ false = ground arith in rw (full, append-nil output) refl
fill_from-drawn [] (suc k) n output h =
    let missing : ltb (length output) n ≡ true = ground arith in
    let too_few : leb (suc k) 0 ≡ false = ground arith in rw (missing, too_few) refl
fill_from-drawn (bytes ∷ buffers) zero n output h =
    let full : ltb (length output) n ≡ false = ground arith in
    let enough : leb 0 (length (letters (bytes ++ concat buffers))) ≡ true = ground arith in
    rw (full, enough, append-nil output) refl
fill_from-drawn (bytes ∷ buffers) (suc k) n output h =
    let missing : ltb (length output) n ≡ true = ground arith in
    let room : length (output ++ take (suc k) (letters bytes)) + (suc k - length (letters bytes))
        ≡ n =
      omega (
        arith,
        length-append output (take (suc k) (letters bytes)),
        length-take (suc k) (letters bytes),
      ) in
    rw (missing, fill-take k n output bytes h)
      (fill_from-drawn buffers (suc k - length (letters bytes)) n _ room
        ∙ drawn-split (suc k) output (letters bytes) (letters (concat buffers))
        ∙ ap (drawn (suc k) output) (sym (letters-append bytes (concat buffers))))

-- However the random bytes are spread over the buffers, a random text is the letters of the first bytes
-- below 248, as many as were asked for; and where there are as many, it is found.
pub random_text-drawn :
    (n : ℕ) (buffers : List (List ℕ))
    → random_text n buffers ≡ drawn n [] (letters (concat buffers))
unfolding random_text
random_text-drawn n buffers = fill_from-drawn buffers n n [] (omega arith)
