-- ===== src/Wireless/Devices.antt =====
-- Which adb is supported, and the devices that are listed twice, in
-- crates/quadcontrol-android/src/wireless.rs; what is said of a failure without the password.
pub mod Laws
use quad_control.Base.{
  ℕ, zero, suc, ◌+◌, ◌^◌, Bool, true, false, not, ◌&&◌, ◌||◌, List, [], ◌∷◌, ◌++◌, Option, none,
  some, Result, ok, err, ltb, ◌==◌, if◌then◌else◌, any, take, find_map, is_empty, map, length, drop,
}
use quad_control.Base.Text.{
  Text, codes, text_eq, strip_prefix, starts_with, split, lines, split_whitespace, parse_uint, trim,
}
use quad_control.Probe.{Device}
use quad_control.Wireless.{WirelessError, invalid_adb_version, adb_too_old}

abbrev pub Version : Type 0
Version = ℕ × ℕ × ℕ

abbrev first_of : List Text → Option Text
first_of [] = none
first_of (x ∷ xs) = some x

-- three parts that are numbers of 64 bits, of any number of parts
version_of_parts : List Text → Option Version
unfolding parse_uint
version_of_parts (a ∷ b ∷ c ∷ rest) = elim (parse_uint (2 ^ 64) a) [
  | none ↦ none
  | some major ↦ elim (parse_uint (2 ^ 64) b) [
    | none ↦ none
    | some minor ↦ elim (parse_uint (2 ^ 64) c) [
      | none ↦ none
      | some patch ↦ some (major, minor, patch)
    ]
  ]
]
version_of_parts _ = none

version_of_word : Option Text → Option Version
unfolding version_of_parts split
version_of_word none = none
version_of_word (some word) = elim (first_of (split b'-' word)) [
  | none ↦ none
  | some version ↦ version_of_parts (split b'.' version)
]

version_of_line : Text → Option Version
unfolding version_of_word strip_prefix split_whitespace
version_of_line line = elim (strip_prefix (codes "Version ") line) [
  | none ↦ none
  | some rest ↦ version_of_word (first_of (split_whitespace rest))
]

unfoldable pub parse_adb_version : Text → Option Version
unfolding version_of_line lines
parse_adb_version output = find_map version_of_line (lines output)

-- `version < (30, 0, 0)`
abbrev too_old : Version → Bool
too_old (major, minor, patch) = ltb major 30

unfoldable pub require_supported_adb : Text → Result Version WirelessError
unfolding parse_adb_version
require_supported_adb output = elim (parse_adb_version output) [
  | none ↦ err invalid_adb_version
  | some (major, minor, patch) ↦
      if too_old (major, minor, patch)
      then err (adb_too_old major minor patch)
      else ok (major, minor, patch)
]

abbrev pub Pairs : Type 0
Pairs = List (Text × Text)

-- a pair of serials names the two devices, in either order
unfoldable pub same_device : Pairs → Device → Device → Bool
unfolding text_eq
same_device serials existing d =
    any
      (λ pair.
        (text_eq pair.0 existing.serial && text_eq pair.1 d.serial)
        || (text_eq pair.0 d.serial && text_eq pair.1 existing.serial))
      serials

unfoldable pub is_adb_name : Device → Bool
unfolding starts_with
is_adb_name d = starts_with (codes "adb-") d.serial

-- the device that is kept of two that are the same
abbrev pub better : Device → Device → Device
better existing d = if is_adb_name d && not (is_adb_name existing) then d else existing

-- one turn of the loop: the first device that is the same is found, and kept or replaced
unfoldable pub add_device : Pairs → List Device → Device → List Device
unfolding same_device is_adb_name
add_device serials [] d = d ∷ []
add_device serials (existing ∷ result) d =
    let rest = add_device serials result d in
    if same_device serials existing d then better existing d ∷ result else existing ∷ rest

unfoldable pub deduplicate_from : Pairs → List Device → List Device → List Device
unfolding add_device
deduplicate_from serials result [] = result
deduplicate_from serials result (d ∷ devices) =
    deduplicate_from serials (add_device serials result d) devices

unfoldable pub deduplicate_devices : List Device → Pairs → List Device
unfolding deduplicate_from
deduplicate_devices devices serials = deduplicate_from serials [] devices

-- `str::replace` of a text that is not empty: `skip` characters of a match are still to be passed
replace_from : Text → Text → ℕ → Text → Text
unfolding starts_with
replace_from old new skip [] = []
replace_from old new (suc skip) (c ∷ cs) = replace_from old new skip cs
replace_from old new zero (c ∷ cs) = elim (starts_with old (c ∷ cs)) [
  | true ↦ new ++ replace_from old new (length (drop 1 old)) cs
  | false ↦ c ∷ replace_from old new zero cs
]

unfoldable pub stderr_summary : Text → Text → Text
unfolding replace_from trim
stderr_summary stderr secret = take 512 (
    if is_empty secret
    then trim stderr
    else replace_from secret (codes "[redacted]") 0 (trim stderr))
