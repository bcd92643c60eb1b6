-- ===== src/Wireless/Secret.antt =====
-- `generate_pairing_secret` and `random_text` of crates/quadcontrol-android/src/wireless.rs. What
-- `getrandom::fill` puts into the buffer of 32 bytes, call after call, is a parameter.
pub mod Drawn
pub mod ReadBack
use quad_control.Base.{
  ℕ, zero, suc, ◌%◌, List, [], ◌∷◌, ◌++◌, Option, none, some, ltb, ◌==◌, if◌then◌else◌, length,
}
use quad_control.Base.Text.{Text, codes}
use quad_control.Wireless.Close.{PairingSecret}

abbrev pub password_length : ℕ
password_length = 12

abbrev pub alphanumeric : Text
alphanumeric = codes "0123456789ABCDEFGHIJKLMNOPQRSTUVWXYZabcdefghijklmnopqrstuvwxyz"

-- the index is smaller than the length wherever it is used
abbrev pub at : Text → ℕ → ℕ
at [] i = 0
at (c ∷ t) zero = c
at (c ∷ t) (suc i) = at t i

unfoldable pub letter : ℕ → ℕ
letter byte = at alphanumeric (byte % length alphanumeric)

-- the loop over the bytes of one buffer
unfoldable pub fill : ℕ → Text → List ℕ → Text
unfolding letter
fill n output [] = output
fill n output (byte ∷ bytes) =
    let longer = output ++ letter byte ∷ [] in
    let taken = fill n longer bytes in
    let skipped = fill n output bytes in
    if ltb byte 248 then (if length longer == n then longer else taken) else skipped

-- none: the buffers given are used up
unfoldable pub fill_from : ℕ → Text → List (List ℕ) → Option Text
unfolding fill
fill_from n output [] = if ltb (length output) n then none else some output
fill_from n output (bytes ∷ buffers) =
    let rest = fill_from n (fill n output bytes) buffers in
    if ltb (length output) n then rest else some output

unfoldable pub random_text : ℕ → List (List ℕ) → Option Text
unfolding fill_from
random_text n buffers = fill_from n [] buffers

abbrev pub secret : Text → Text → PairingSecret
secret suffix password =
    let service_name = codes "studio-" ++ suffix in
    record {
      service_name = service_name;
      password = password;
      payload =
          codes "WIFI:T:ADB;S:" ++ (service_name ++ (codes ";P:" ++ (password ++ codes ";;")));
    }

abbrev secret_of : Option Text → Option Text → Option PairingSecret
secret_of none password = none
secret_of (some suffix) none = none
secret_of (some suffix) (some password) = some (secret suffix password)

-- with the buffers for the name and those for the password
unfoldable pub generate_pairing_secret : List (List ℕ) → List (List ℕ) → Option PairingSecret
unfolding random_text
generate_pairing_secret names passwords =
    secret_of (random_text 10 names) (random_text password_length passwords)
