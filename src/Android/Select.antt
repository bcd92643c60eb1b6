-- ===== src/Android/Select.antt =====
-- `select_device` and `validate_version_text` of crates/quadcontrol-android/src/lib.rs.
pub mod Laws
use quad_control.Base.{
  ℕ, ◌^◌, Bool, true, false, ◌&&◌, ◌||◌, List, [], ◌∷◌, ◌++◌, Option, none, some, Result, ok, err,
  ◌>>=◌, ok_or, ltb, ◌==◌, if◌then◌else◌, find, find_map, filter, map,
}
use quad_control.Base.Text.{
  Text, codes, text_eq, is_ascii_digit, contains, lines, split_whitespace, split, parse_uint,
}
use quad_control.Probe.{DeviceState, device, offline, unauthorized, other, Device, is_device}
use quad_control.Android.{Error, usage, scrcpy_version, not_found, wrong_state}

abbrev pub is_ready : Device → Bool
is_ready d = is_device d.state

abbrev is_unauthorized : Device → Bool
is_unauthorized d = elim d.state [
  | device ↦ false
  | offline ↦ false
  | unauthorized ↦ true
  | other s ↦ false
]

abbrev is_offline : Device → Bool
is_offline d = elim d.state [
  | device ↦ false
  | offline ↦ true
  | unauthorized ↦ false
  | other s ↦ false
]

abbrev pub state_name : DeviceState → Text
state_name device = codes "device"
state_name offline = codes "offline"
state_name unauthorized = codes "unauthorized"
state_name (other s) = s

abbrev pub has_serial : Text → Device → Bool
has_serial serial d = text_eq d.serial serial

-- the branch on a serial that was given
select_named : List Device → Text → Result Text Error
unfolding text_eq
select_named list serial = elim (find (has_serial serial) list) [
  | none ↦ err (not_found (codes "device " ++ serial ++ codes " is not present in adb devices -l"))
  | some d ↦
      if is_ready d
      then ok serial
      else err (
          wrong_state (
            codes "device "
            ++ serial
            ++ codes " is "
            ++ state_name d.state
            ++ codes ", not device"))
]

-- no device is ready
none_ready : List Device → Error
none_ready list = elim (find is_unauthorized list) [
  | some d ↦
      wrong_state (
        codes "device "
        ++ d.serial
        ++ codes " is unauthorized; approve this computer on the device")
  | none ↦ elim (find is_offline list) [
    | some d ↦
        wrong_state (codes "device " ++ d.serial ++ codes " is offline; reconnect the device")
    | none ↦ wrong_state (codes "no adb device is ready")
  ]
]

select_only : List Device → List Device → Result Text Error
unfolding none_ready
select_only list [] = err (none_ready list)
select_only list (one ∷ []) = ok one.serial
select_only list (a ∷ b ∷ rest) =
    err (usage (codes "multiple adb devices are ready; pass --serial"))

unfoldable pub select_device : List Device → Option Text → Result Text Error
unfolding select_named select_only
select_device list none = select_only list (filter is_ready list)
select_device list (some serial) = select_named list serial

-- `MIN_SCRCPY`, and `<` on pairs
abbrev below_minimum : ℕ → ℕ → Bool
below_minimum major minor = ltb major 4 || (major == 4 && ltb minor 1)

abbrev begins_with_digit : Text → Bool
begins_with_digit [] = false
begins_with_digit (c ∷ cs) = is_ascii_digit c

abbrev invalid : Error
invalid = scrcpy_version (codes "invalid scrcpy version")

-- `parts.next()` at u64
number_at_head : List Text → Result (Option ℕ) Error
unfolding parse_uint
number_at_head [] = ok none
number_at_head (part ∷ rest) = elim (parse_uint (2 ^ 64) part) [
  | none ↦ err invalid
  | some n ↦ ok (some n)
]

abbrev tail : List Text → List Text
tail [] = []
tail (x ∷ xs) = xs

abbrev or_zero : Option ℕ → ℕ
or_zero none = 0
or_zero (some n) = n

-- the checks on the token that was found
check_version_token : Text → Result (Unit {0}) Error
unfolding contains split number_at_head
check_version_token token =
    if contains (b'-' ∷ []) token
    then err (
        scrcpy_version (
          codes "scrcpy prerelease "
          ++ token
          ++ codes " is not supported; install stable scrcpy 4.1 or newer"))
    else (let parts = split b'.' token in
        number_at_head parts >>= λ first. ok_or first invalid >>= λ major.
        number_at_head (tail parts) >>= λ second.
        if below_minimum major (or_zero second)
        then err (
            scrcpy_version
              (codes "scrcpy " ++ token ++ codes " is too old; install stable scrcpy 4.1 or newer"))
        else ok tt)

unfoldable pub version_token : Text → Option Text
unfolding lines split_whitespace
version_token text = find_map (λ line. find begins_with_digit (split_whitespace line)) (lines text)

unfoldable pub validate_version_text : Text → Result (Unit {0}) Error
unfolding version_token check_version_token
validate_version_text text =
    ok_or (version_token text) (
      scrcpy_version (
        codes
          "could not parse scrcpy version; install stable scrcpy 4.1 or newer from https://github.com/Genymobile/scrcpy/releases"))
    >>= check_version_token
