-- ===== src/Android/Options.antt =====
-- `filtered_args` and `build_args` of crates/quadcontrol-android/src/lib.rs. An argument is the list
-- of its UTF-8 bytes.
pub mod Accepted
use quad_control.Base.{
  ℕ, ◌==◌, Bool, true, false, not, ◌&&◌, ◌||◌, List, [], ◌∷◌, ◌++◌, Option, none, some, Result, ok,
  err, ◌>>=◌, if◌then◌else◌, is_empty,
}
use quad_control.Base.Text.{Text, codes, text_eq, one_of, strip_prefix, split_once}
use quad_control.Android.{Error, invalid_passthrough}

pub data OptionKind : Type 0 where
  deny conflict other : OptionKind

abbrev pub conflict_names : List Text
conflict_names =
    codes "serial"
    ∷ codes "select-usb"
    ∷ codes "select-tcpip"
    ∷ codes "window-title"
    ∷ codes "video-bit-rate"
    ∷ codes "no-audio"
    ∷ codes "audio-source"
    ∷ codes "no-audio-playback"
    ∷ []

abbrev pub deny_names : List Text
deny_names =
    codes "screen-off-timeout"
    ∷ codes "tcpip"
    ∷ codes "record"
    ∷ codes "no-cleanup"
    ∷ codes "stay-awake"
    ∷ codes "show-touches"
    ∷ codes "power-off-on-close"
    ∷ codes "kill-adb-on-close"
    ∷ codes "no-window"
    ∷ codes "no-playback"
    ∷ codes "no-video-playback"
    ∷ codes "no-video"
    ∷ codes "otg"
    ∷ []

unfoldable pub is_conflict : Text → Bool
unfolding text_eq
is_conflict = one_of conflict_names

unfoldable pub is_denied : Text → Bool
unfolding text_eq
is_denied = one_of deny_names

unfoldable pub long_kind : Text → OptionKind
long_kind s = if is_conflict s then conflict else if is_denied s then deny else other

-- the kind of a short option, and whether it takes a value
unfoldable pub short_kind : ℕ → OptionKind × Bool
short_kind c =
    if c == b's' || c == b'b'
    then (conflict, true)
    else if c == b'd' || c == b'e'
    then (conflict, false)
    else if c == b'w' || c == b't' || c == b'N' || c == b'r'
    then (deny, c == b'r')
    else (other, false)

short_name : ℕ → Text
short_name c =
    if c == b'w'
    then codes "stay-awake"
    else if c == b't'
    then codes "show-touches"
    else if c == b'N'
    then codes "no-playback"
    else if c == b'r'
    then codes "record"
    else codes "unknown"

abbrev settings_names : List Text
settings_names =
    codes "stay-awake"
    ∷ codes "show-touches"
    ∷ codes "screen-off-timeout"
    ∷ codes "power-off-on-close"
    ∷ []

abbrev mirroring_names : List Text
mirroring_names =
    codes "no-window"
    ∷ codes "no-playback"
    ∷ codes "no-video-playback"
    ∷ codes "no-video"
    ∷ codes "otg"
    ∷ []

deny_reason : Text → Text
unfolding text_eq
deny_reason s =
    if text_eq s (codes "no-cleanup")
    then codes "it breaks the wrapper cleanup contract"
    else if text_eq s (codes "tcpip")
    then codes "it changes connection state"
    else if one_of settings_names s
    then codes "it changes device settings"
    else if text_eq s (codes "kill-adb-on-close")
    then codes "it affects other adb users"
    else if one_of mirroring_names s
    then codes "it violates the visible mirroring boundary"
    else if text_eq s (codes "record")
    then codes "recording is owned by the wrapper policy"
    else codes "it is outside the wrapper policy"

denied : Text → Text → Error
unfolding deny_reason
denied shown name =
    invalid_passthrough
      (codes "scrcpy option " ++ shown ++ codes " is denied: " ++ deny_reason name)

conflicting : Text → Error
conflicting shown =
    invalid_passthrough
      (codes "scrcpy option " ++ shown ++ codes " conflicts with wrapper-owned configuration")

missing_value : ℕ → Error
missing_value c = invalid_passthrough (codes "scrcpy option -" ++ (c ∷ codes " requires a value"))

abbrev pub separator : Text
separator = codes "--"

-- `name.split_once('=').map_or(name, |(n, _)| n)`
unfoldable pub option_name : Text → Text
unfolding split_once
option_name name = elim (split_once b'=' name) [ none ↦ name | some (n, value) ↦ n ]

unfoldable pub check_long : Text → Result (Unit {0}) Error
unfolding long_kind denied conflicting option_name
check_long rest =
    let name = option_name rest in
    elim (long_kind name) [
      | deny ↦ err (denied (separator ++ name) name)
      | conflict ↦ err (conflicting (separator ++ name))
      | other ↦ ok tt
    ]

-- `args.get(i + 1).is_none() || args[i + 1] == "--"`
abbrev no_value : Option Text → Bool
no_value none = true
no_value (some next) = text_eq next separator

-- The `while pos < bytes.len()`: whether the next argument is consumed as a value.
unfoldable pub check_short : Text → Option Text → Result Bool Error
unfolding short_kind short_name denied conflicting missing_value text_eq
check_short [] next = ok false
check_short (c ∷ cs) next =
    let (kind, takes) = short_kind c in
    let later = check_short cs next in
    let allowed = if takes then ok (is_empty cs) else later in
    let refused : Result Bool Error = elim kind [
      | deny ↦ err (denied (b'-' ∷ c ∷ []) (short_name c))
      | conflict ↦ err (conflicting (b'-' ∷ c ∷ []))
      | other ↦ allowed
    ] in
    if takes && is_empty cs && no_value next then err (missing_value c) else refused

abbrev first_of : List Text → Option Text
first_of [] = none
first_of (a ∷ r) = some a

-- What the loop does with the argument at `i`.
pub data Step : Type 0 where
  keep : Step  -- pushed
  keep_and_skip : Step  -- pushed, and the next argument is passed over
  separate : Step  -- the separator: pushed, and all that follows is

unfoldable pub check_arg : Text → Option Text → Result Step Error
unfolding check_long check_short text_eq strip_prefix
check_arg arg next =
    let short : Result Step Error = elim (strip_prefix (b'-' ∷ []) arg) [
      | none ↦ ok keep
      | some shorts ↦
          let scanned =
            check_short shorts next >>= λ skip. ok (if skip then keep_and_skip else keep) in
          if is_empty shorts then ok keep else scanned
    ] in
    let long : Result Step Error = elim (strip_prefix separator arg) [
      | none ↦ short
      | some rest ↦ check_long rest >>= λ _. ok keep
    ] in
    if text_eq arg separator then ok separate else long

-- `skip`: the argument at `i` was consumed as a value.
unfoldable pub filter_from : Bool → List Text → Result (List Text) Error
unfolding check_arg
filter_from skip [] = ok []
filter_from skip (arg ∷ rest) =
    let passed = filter_from false rest in
    let checked = check_arg arg (first_of rest) >>= λ step. elim step [
      | keep ↦ filter_from false rest >>= λ out. ok (arg ∷ out)
      | keep_and_skip ↦ filter_from true rest >>= λ out. ok (arg ∷ out)
      | separate ↦ ok (arg ∷ rest)
    ] in
    if skip then passed else checked

unfoldable pub filtered_args : List Text → Result (List Text) Error
unfolding filter_from
filtered_args = filter_from false

pub record LaunchOptions : Type 0 where
  pub adb_path : Text
  pub scrcpy : Text
  pub serial : Text
  pub bit_rate : Text
  pub screen_off : Bool
  pub audio_on_computer : Bool
  pub passthrough : List Text
  pub scrcpy_env : List (Text × Text)

-- the `splice` at the front
abbrev pub owned_args : LaunchOptions → List Text
owned_args o =
    codes "--serial"
    ∷ o.serial
    ∷ codes "--window-title=QuadControl"
    ∷ codes "--video-bit-rate"
    ∷ o.bit_rate
    ∷ []

-- the `push`es at the end
abbrev pub flags : LaunchOptions → List Text
flags o =
    (if o.screen_off then codes "--turn-screen-off" ∷ [] else [])
    ++ (if o.audio_on_computer then [] else codes "--no-audio" ∷ [])

unfoldable pub build_args : LaunchOptions → Result (List Text) Error
unfolding filtered_args
build_args o = filtered_args o.passthrough >>= λ args. ok ((owned_args o ++ args) ++ flags o)
