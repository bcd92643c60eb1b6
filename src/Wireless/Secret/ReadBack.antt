-- ===== src/Wireless/Secret/ReadBack.antt =====
-- The payload of the QR code that `generate_pairing_secret` of crates/quadcontrol-android/src/wireless.rs makes,
-- and what a phone reads in it.
use quad_control.Base.{
  ℕ, zero, suc, ◌%◌, ◌≡◌, ◌≤◌, ◌∙◌, refl, Bool, true, false, inl, inr, not, List, [], ◌∷◌, ◌++◌,
  Option, none, some, leb, ltb, ◌==◌, if◌then◌else◌, length, take, all, arith, Bool-cases,
  length-take, all-take,
}
use quad_control.Base.Text.{Text, codes, split_once, strip_prefix, text_eq}
use quad_control.Wireless.Close.{PairingSecret}
use quad_control.Wireless.Secret.{alphanumeric, at, letter, secret, generate_pairing_secret}
use quad_control.Wireless.Secret.Drawn.{letters, concat, drawn, random_text-drawn}

-- A reader of `WIFI:T:ADB;S:<name>;P:<password>;;`, which takes nothing else: each tag is looked at, a field
-- ends at its semicolon, and after the last one there is one more and no character behind it.
unfoldable pub read_field : Text → Text → Option (Text × Text)
unfolding strip_prefix split_once
read_field tag payload = elim (strip_prefix tag payload) [
  | none ↦ none
  | some rest ↦ split_once b';' rest
]

unfoldable pub read_end : Text → Text → Text → Option (Text × Text)
unfolding text_eq
read_end name password rest = if text_eq rest (codes ";") then some (name, password) else none

unfoldable pub read_payload : Text → Option (Text × Text)
unfolding read_field read_end
read_payload payload = elim (read_field (codes "WIFI:T:ADB;S:") payload) [
  | none ↦ none
  | some (name, rest) ↦ elim (read_field (codes "P:") rest) [
    | none ↦ none
    | some (password, more) ↦ read_end name password more
  ]
]

abbrev is_plain : ℕ → Bool
is_plain c = not (c == b';')

split_once-plain :
    (xs ys : Text) → all is_plain xs ≡ true → split_once b';' (xs ++ b';' ∷ ys) ≡ some (xs, ys)
unfolding split_once
split_once-plain [] ys h = refl
split_once-plain (x ∷ xs) ys h =
    let other : (x == b';') ≡ false = ground arith in
    rw (other, split_once-plain xs ys (ground arith)) refl

at-plain : (t : Text) (i : ℕ) → all is_plain t ≡ true → is_plain (at t i) ≡ true
at-plain [] i h = refl
at-plain (c ∷ t) zero h = ground arith
at-plain (c ∷ t) (suc i) h = at-plain t i (ground arith)

letters-plain : (bytes : List ℕ) → all is_plain (letters bytes) ≡ true
unfolding letter
letters-plain [] = refl
letters-plain (b ∷ bytes) = elim (Bool-cases (ltb b 248)) [
  | inl e ↦
      let plain = at-plain alphanumeric (b % length alphanumeric) refl in
      let others = letters-plain bytes in rw (e, plain) others
  | inr e ↦ rw e (letters-plain bytes)
]

all-plain :
    (xs ys : Text)
    → all is_plain xs ≡ true
    → all is_plain ys ≡ true
    → all is_plain (xs ++ ys) ≡ true
all-plain [] ys h g = g
all-plain (x ∷ xs) ys h g = let others = all-plain xs ys (ground arith) g in ground arith

read_payload-secret :
    (suffix password : Text)
    → all is_plain suffix ≡ true
    → all is_plain password ≡ true
    → read_payload (secret suffix password).payload ≡ some (codes "studio-" ++ suffix, password)
unfolding read_payload
read_payload-secret suffix password h g =
    rw
      (
        split_once-plain (codes "studio-" ++ suffix) (codes "P:" ++ (password ++ codes ";;")) h,
        split_once-plain password (codes ";") g,
      )
      refl

drawn-some : (n : ℕ) (t : Text) → n ≤ length t → drawn n [] t ≡ some (take n t)
drawn-some n t h = let enough : leb n (length t) ≡ true = ground arith in rw enough refl

-- Where the random bytes have ten letters and twelve letters in them, a secret is made. Its password has twelve
-- characters and the name of its service seventeen, and what a phone reads in the code is that name and that
-- password.
pub generate_pairing_secret-read :
    (names passwords : List (List ℕ))
    → 10 ≤ length (letters (concat names))
    → 12 ≤ length (letters (concat passwords))
    → (s : PairingSecret) × (generate_pairing_secret names passwords ≡ some s)
      × (length s.service_name ≡ 17)
      × (length s.password ≡ 12)
      × (read_payload s.payload ≡ some (s.service_name, s.password))
unfolding generate_pairing_secret
generate_pairing_secret-read names passwords h g =
    let first = letters (concat names) in
    let second = letters (concat passwords) in
    let suffix = random_text-drawn 10 names ∙ drawn-some 10 first h in
    let password = random_text-drawn 12 passwords ∙ drawn-some 12 second g in
    (
      secret (take 10 first) (take 12 second),
      rw (suffix, password) refl,
      omega (arith, length-take 10 first),
      omega (arith, length-take 12 second),
      read_payload-secret (take 10 first) (take 12 second)
          (all-take is_plain 10 first (letters-plain (concat names)))
          (all-take is_plain 12 second (letters-plain (concat passwords))),
    )
