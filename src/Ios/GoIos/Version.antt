-- ===== src/Ios/GoIos/Version.antt =====
-- `resolve_ios`, `check_version` and `parse_version` of crates/quadcontrol-ios/src/lib.rs. `J`
-- stands for the JSON values of serde_json.
use quad_control.Base.{
  ℕ, ◌≤◌, ◌<◌, ◌≡◌, ◌↔◌, ◌^◌, Bool, false, ◌&&◌, ◌||◌, List, [], ◌∷◌, Option, none, some, Result,
  ok, err, ltb, ◌==◌, if◌then◌else◌, ◌⊎◌, arith, any, drop, ◌++◌, ◌>>=◌, ok_or, Holds, bind-Holds,
  if-Holds,
}
use quad_control.Base.Text.{Text, codes, trim, trim_start_while, split, parse_uint}
use quad_control.Os.{IoError}
use quad_control.Ios.Error.{Error, ios_version}
use quad_control.Ios.GoIos.{Output, succeeded, code_text, not_run}

-- the path that is given, or the environment's, or the name
unfoldable pub resolve_ios : (explicit ios_bin : Option Text) → Text
resolve_ios (some path) ios_bin = path
resolve_ios none (some path) = path
resolve_ios none none = codes "ios"

pub record Version : Type 0 where
  pub major : ℕ
  pub minor : ℕ
  pub patch : ℕ
  pub newer_than_verified : Bool

-- the order of triples
unfoldable pub older : ℕ × ℕ × ℕ → ℕ × ℕ × ℕ → Bool
older (a, b, c) (x, y, z) = ltb a x || (a == x && (ltb b y || (b == y && ltb c z)))

abbrev pub min_go_ios : ℕ × ℕ × ℕ
min_go_ios = (1, 2, 1)

abbrev pub number : Text → Option ℕ
number = parse_uint (2 ^ 64)

-- `unwrap_or(0)`
abbrev zero_or : Option ℕ → ℕ
zero_or none = 0
zero_or (some n) = n

-- a part that must be there
abbrev required : Text → Text → Option ℕ → Result ℕ Error
required raw name o =
    ok_or o (ios_version (codes "go-ios version " ++ raw ++ codes " has no " ++ name))

abbrev first : List Text → Option ℕ
first [] = none
first (a ∷ _) = number a

-- the third part may be missing, or no number
unfoldable pub numbers : Text → List Text → Result (ℕ × ℕ × ℕ) Error
unfolding parse_uint
numbers raw parts = required raw (codes "major") (first parts) >>= λ major.
    (required raw (codes "minor") (first (drop 1 parts)) >>= λ minor.
    ok (major, minor, zero_or (first (drop 2 parts))))

unfoldable pub supported : Text → ℕ × ℕ × ℕ → Result Version Error
unfolding older
supported raw found =
    if older found min_go_ios
    then err
        (ios_version (codes "go-ios " ++ raw ++ codes " is too old; install go-ios 1.2.1 or newer"))
    else ok (record {
      major = found.0;
      minor = found.1;
      patch = found.2;
      newer_than_verified = older min_go_ios found;
    })

-- of the text in the field `version`
unfoldable pub parse_token : Text → Result Version Error
unfolding trim split numbers supported
parse_token raw =
    let token = trim_start_while (λ c. c == b'v') (trim raw) in
    if any (λ c. c == b'-') token
    then err (
        ios_version (
          codes "go-ios prerelease "
          ++ raw
          ++ codes " is not supported; install stable go-ios 1.2.1 or newer"))
    else numbers raw (split b'.' token) >>= supported raw

module _ {J : Type 0} (parse : Text → Result J Text) (version : J → Option Text) where
  abbrev parsed : Result J Text → Result J Error
  parsed (ok value) = ok value
  parsed (err e) = err (ios_version (codes "could not parse `ios version` output: " ++ e))

  unfoldable pub parse_version : Text → Result Version Error
  unfolding parse_token trim
  parse_version stdout = parsed (parse (trim stdout)) >>= λ value.
      (ok_or (version value) (ios_version (codes "`ios version` output has no version field"))
        >>= parse_token)

  unfoldable pub check_version : Text → Result Output IoError → Result Version Error
  unfolding parse_version not_run
  check_version ios (err e) = err (not_run ios e)
  check_version ios (ok output) =
      if succeeded output.status
      then parse_version output.stdout
      else err (ios_version (codes "`ios version` exited with " ++ code_text output.status))

-- At least 1.2.1.
abbrev pub IsAtLeast : ℕ → ℕ → ℕ → Type 0
IsAtLeast a b c = (1 < a) ⊎ ((a ≡ 1) × ((2 < b) ⊎ ((b ≡ 2) × (1 ≤ c))))

-- Not older than the version that was tried, and marked as newer unless it is that one.
abbrev pub IsSupported : Version → Type 0
IsSupported v =
    IsAtLeast v.major v.minor v.patch
    × ((v.newer_than_verified ≡ false) ↔ ((v.major ≡ 1) × (v.minor ≡ 2) × (v.patch ≡ 1)))

supported-Holds : (raw : Text) (found : ℕ × ℕ × ℕ) → Holds IsSupported (supported raw found)
unfolding supported older
supported-Holds raw (a, b, c) = ground arith

parse_token-Holds : (raw : Text) → Holds IsSupported (parse_token raw)
unfolding parse_token
parse_token-Holds raw =
    let token = trim_start_while (λ c. c == b'v') (trim raw) in
    if-Holds IsSupported (any (λ c. c == b'-') token) _
      (numbers raw (split b'.' token) >>= supported raw) tt
      (bind-Holds IsSupported (numbers raw (split b'.' token)) (supported raw)
        (supported-Holds raw))

-- Whatever go-ios writes, a version that is accepted is 1.2.1 or newer, and it is marked as newer than
-- the one that was tried unless it is that one.
pub check_version-IsSupported :
    {J : Type 0} (parse : Text → Result J Text) (version : J → Option Text) (ios : Text)
    (r : Result Output IoError)
    → Holds IsSupported (check_version parse version ios r)
unfolding check_version parse_version
check_version-IsSupported parse version ios (err e) = tt
check_version-IsSupported parse version ios (ok output) =
    if-Holds IsSupported (succeeded output.status) (parse_version parse version output.stdout) _
      (bind-Holds IsSupported (parsed parse version (parse (trim output.stdout))) _
        λ value. bind-Holds IsSupported (ok_or (version value) _) parse_token parse_token-Holds)
      tt
