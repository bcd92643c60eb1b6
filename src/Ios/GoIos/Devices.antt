-- ===== src/Ios/GoIos/Devices.antt =====
-- crates/quadcontrol-ios/src/devices.rs, and `list_devices` of lib.rs there.
use quad_control.Base.{
  ◌-◌, ◌≡◌, refl, Bool, true, false, not, ◌||◌, List, [], ◌∷◌, ◌++◌, Option, none, some, Result, ok,
  err, ◌==◌, if◌then◌else◌, is_empty, any, filter, map, drop, length, arith, ◌>>=◌, Bool-cases, inl,
  inr, Holds, length-append,
}
use quad_control.Base.Text.{
  Text, codes, trim, trim_start_while, trim_end_while, split, lines, starts_with, strip_prefix,
  contains, is_whitespace, eq_ignore_ascii_case, to_ascii_lowercase,
}
use quad_control.Os.{IoError, other}
use quad_control.Ios.Error.{Error, usbmuxd_unavailable, process}
use quad_control.Ios.GoIos.{Output, succeeded, code_text, not_run}

pub record IosDevice : Type 0 where
  pub id : Text
  pub name : Text

-- the last four characters
abbrev pub tail : Text → Text
tail t = drop (length t - 4) t

unfoldable pub short_ios_name : Text → Text
short_ios_name udid = codes "iPhone ····" ++ tail udid

-- `find`, and what stands from there on
unfoldable pub from_first : Text → Text → Option Text
unfolding starts_with
from_first p [] = if is_empty p then some [] else none
from_first p (c ∷ cs) =
    let rest = from_first p cs in if starts_with p (c ∷ cs) then some (c ∷ cs) else rest

-- up to the first `]`
unfoldable pub before_close : Text → Option Text
before_close [] = none
before_close (c ∷ cs) =
    let rest = before_close cs in
    if c == b']' then some [] else elim rest [ none ↦ none | some t ↦ some (c ∷ t) ]

abbrev pub unquoted : Text → Text
unquoted t = trim_end_while (λ c. c == b'"') (trim_start_while (λ c. c == b'"') t)

abbrev pub after_open : Option Text → Option Text
after_open none = none
after_open (some t) = before_close (drop 1 t)

abbrev pub find_open : Option Text → Option Text
find_open none = none
find_open (some t) = from_first (codes "[") t

unfoldable pub extract_device_list : Text → Option (List Text)
unfolding from_first before_close split trim trim_end_while trim_start_while
extract_device_list output =
    elim (after_open (find_open (from_first (codes "\"deviceList\"") output))) [
      | none ↦ none
      | some inner ↦
          some (filter (λ t. not (is_empty t)) (map (λ t. unquoted (trim t)) (split b',' inner)))
    ]

abbrev pub without_label : Text → Text
without_label line = elim (strip_prefix (codes "UDID:") line) [ none ↦ line | some rest ↦ rest ]

unfoldable pub listed_lines : Text → List Text
unfolding lines trim eq_ignore_ascii_case strip_prefix
listed_lines output =
    map (λ line. trim (without_label line))
      (filter (λ line. not (eq_ignore_ascii_case line (codes "list of attached devices:")))
        (filter (λ line. not (is_empty line)) (map trim (lines output))))

abbrev pub malformed : Text → Bool
malformed udid = is_empty udid || any is_whitespace udid

-- `collect` into a `Result`: the first error ends it
unfoldable pub to_devices : List Text → Result (List IosDevice) Text
unfolding short_ios_name is_whitespace
to_devices [] = ok []
to_devices (udid ∷ rest) =
    let others = to_devices rest in
    if malformed udid
    then err (codes "go-ios returned an unparsable device list")
    else (others >>= λ ds. ok (record { id = udid; name = short_ios_name udid } ∷ ds))

-- the UDIDs that an output names: a list in JSON, or else lines
unfoldable pub udids_of : Text → List Text
unfolding extract_device_list listed_lines
udids_of output = elim (extract_device_list output) [
  | none ↦ listed_lines output
  | some udids ↦ udids
]

unfoldable pub parse_ios_devices : Text → Result (List IosDevice) Text
unfolding udids_of to_devices
parse_ios_devices output = to_devices (udids_of output)

unfoldable pub looks_like_usbmuxd_failure : Text → Bool
unfolding contains to_ascii_lowercase
looks_like_usbmuxd_failure stderr =
    any (λ needle. contains needle (to_ascii_lowercase stderr))
      (codes "usbmuxd" ∷ codes "connection refused" ∷ codes "no such file or directory" ∷ [])

-- an `io::Error` that carries a text is kept as its kind
abbrev pub rejected : Result (List IosDevice) Text → Result (List IosDevice) Error
rejected (ok devices) = ok devices
rejected (err reason) = err (process (other 0))

unfoldable pub list_devices : Text → Result Output IoError → Result (List IosDevice) Error
unfolding not_run looks_like_usbmuxd_failure parse_ios_devices
list_devices ios (err e) = err (not_run ios e)
list_devices ios (ok output) =
    let message =
      if looks_like_usbmuxd_failure output.stderr
      then codes "usbmuxd is not reachable; make sure the usbmuxd service is running"
      else codes "`ios list` exited with " ++ code_text output.status in
    if succeeded output.status
    then rejected (parse_ios_devices output.stdout)
    else err (usbmuxd_unavailable message)

abbrev pub IsNamed : IosDevice → Type 0
IsNamed d = (malformed d.id ≡ false) × (d.name ≡ codes "iPhone ····" ++ tail d.id)

-- the devices of a list of UDIDs, each with its name
abbrev pub Lists : List Text → List IosDevice → Type 0
Lists [] [] = Unit
Lists (u ∷ us) (d ∷ ds) = (d.id ≡ u) × IsNamed d × Lists us ds
Lists us ds = true ≡ false

cons-Lists :
    (u : Text) (us : List Text) (r : Result (List IosDevice) Text)
    → malformed u ≡ false
    → Holds (Lists us) r
    → Holds (Lists (u ∷ us)) (r >>= λ ds. ok (record { id = u; name = short_ios_name u } ∷ ds))
unfolding short_ios_name
cons-Lists u us (ok ds) m h = (refl, (m, refl), h)
cons-Lists u us (err e) m h = tt

to_devices-Lists : (udids : List Text) → Holds (Lists udids) (to_devices udids)
unfolding to_devices
to_devices-Lists [] = tt
to_devices-Lists (u ∷ us) = elim (Bool-cases (malformed u)) [
  | inl m ↦ rw m tt
  | inr m ↦ rw m (cons-Lists u us (to_devices us) m (to_devices-Lists us))
]

-- A list of devices that is accepted has one device for each UDID of the output, in its order; none is
-- empty or has white space in it, and each is shown by its last four characters only.
pub parse_ios_devices-Lists :
    (output : Text) → Holds (Lists (udids_of output)) (parse_ios_devices output)
unfolding parse_ios_devices
parse_ios_devices-Lists output = to_devices-Lists (udids_of output)

drop-append : (a t : Text) → drop (length a) (a ++ t) ≡ t
drop-append [] t = refl
drop-append (x ∷ a) t = drop-append a t

-- Two devices whose identifiers end in the same four characters are shown alike: nothing else of an
-- identifier is shown.
pub short_ios_name-private :
    (a b t : Text) → length t ≡ 4 → short_ios_name (a ++ t) ≡ short_ios_name (b ++ t)
unfolding short_ios_name
short_ios_name-private a b t four = rw (tail_of a, tail_of b) refl
  where
    tail_of : (a : Text) → tail (a ++ t) ≡ t
    tail_of a =
        let n : length (a ++ t) - 4 ≡ length a = omega (arith, length-append a t) in
        rw n (drop-append a t)
