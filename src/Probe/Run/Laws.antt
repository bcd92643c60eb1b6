-- ===== src/Probe/Run/Laws.antt =====
-- Laws of `run_probe` and `read_limited` in agents/android-shell/adb-probe/src/lib.rs.
use quad_control.Base.{
  Bool, ◌&&◌, ◌||◌, if◌then◌else◌, all, ℕ, zero, suc, ◌-◌, ◌≡◌, refl, sym, ap, ◌∙◌, true, false,
  List, [], ◌∷◌, ◌++◌, Result, ok, err, arith, inl, inr, ◌==◌, length, take, min, ltb, is_ok,
  length-append, length-take, Bool-cases,
}
use mathlib.Core.List.{append-nil, append_assoc}
use quad_control.Base.Text.{Text}
use quad_control.Os.{IoError}
use quad_control.Probe.{
  AdbCommand, version, devices_long, mdns_services, CommandOutput, ExecutionError, ProbeError,
}
use quad_control.Probe.Parse.{parse_version, parse_devices}
use quad_control.Probe.Run.{
  Runner, Probed, ◌>>=◌, mdns_is_unsupported, answer_of, checked, parsed, mdns_of, run_probe,
  CapturedOutput, store_chunk, read_from, read_limited,
}

-- what makes each of the three commands one after which the probe goes on
abbrev pub is_good : (CommandOutput → Bool) → Result CommandOutput ExecutionError → Bool
is_good p (err e) = false
is_good p (ok output) = p output

-- `adb version` ended with status 0 and has a version
abbrev pub version_good : CommandOutput → Bool
version_good output = output.status == 0 && is_ok (parse_version output.stdout)

-- `adb devices -l` ended with status 0 and has a list of devices
abbrev pub devices_good : CommandOutput → Bool
devices_good output = output.status == 0 && is_ok (parse_devices output.stdout)

-- `adb mdns services` ended with status 0, or adb does not know it
abbrev pub mdns_good : CommandOutput → Bool
mdns_good output = output.status == 0 || mdns_is_unsupported output

abbrev mdns_step : Runner → List (AdbCommand × Bool)
mdns_step runner = (mdns_services, is_good mdns_good (runner mdns_services)) ∷ []

abbrev devices_steps : Runner → List (AdbCommand × Bool)
devices_steps runner = (devices_long, is_good devices_good (runner devices_long)) ∷ mdns_step runner

abbrev pub steps : Runner → List (AdbCommand × Bool)
steps runner = (version, is_good version_good (runner version)) ∷ devices_steps runner

-- the commands up to the first that is not good, with that one
abbrev pub up_to_failure : List (AdbCommand × Bool) → List AdbCommand
up_to_failure [] = []
up_to_failure ((command, good) ∷ rest) =
    let others = up_to_failure rest in command ∷ (if good then others else [])

abbrev pub all_good : List (AdbCommand × Bool) → Bool
all_good = all (λ step. step.1)

-- exactly those commands are run, and there is a result exactly if all are good
abbrev pub Follows : {A : Type 0} → List (AdbCommand × Bool) → Probed A → Type 0
Follows planned p = (p.0 ≡ up_to_failure planned) × (is_ok p.1 ≡ all_good planned)

abbrev Stopped : {A : Type 0} → Probed A → Type 0
Stopped p = (p.0 ≡ []) × (is_ok p.1 ≡ false)

-- What follows a good answer decides about the rest; any other answer is the end.
ask-Follows :
    {B : Type 0} (command : AdbCommand) (good : CommandOutput → Bool)
    (planned : List (AdbCommand × Bool)) (answer : Result CommandOutput ExecutionError)
    (f : CommandOutput → Probed B)
    → ((output : CommandOutput) → good output ≡ true → Follows planned (f output))
    → ((output : CommandOutput) → good output ≡ false → Stopped (f output))
    → Follows ((command, is_good good answer) ∷ planned) (answer_of command answer >>= f)
ask-Follows command good planned (err e) f k stop = (refl, refl)
ask-Follows command good planned (ok output) f k stop = elim (Bool-cases (good output)) [
  | inl g ↦ let (calls, same) = k output g in rw (g, calls, same) (refl, refl)
  | inr g ↦ let (none_more, fails) = stop output g in rw (g, none_more, fails) (refl, refl)
]

parsed-Follows :
    {A B : Type 0} (planned : List (AdbCommand × Bool)) (r : Result A ProbeError) (f : A → Probed B)
    → is_ok r ≡ true
    → ((a : A) → Follows planned (f a))
    → Follows planned (parsed r >>= f)
parsed-Follows planned (err e) f h k = cc
parsed-Follows planned (ok a) f h k = k a

parsed-Stopped :
    {A B : Type 0} (r : Result A ProbeError) (f : A → Probed B)
    → is_ok r ≡ false
    → Stopped (parsed r >>= f)
parsed-Stopped (err e) f h = (refl, refl)
parsed-Stopped (ok a) f h = cc

-- an answer that is checked for its status and then parsed
checked-Follows :
    {A B : Type 0} (command : AdbCommand) (planned : List (AdbCommand × Bool))
    (parse : Text → Result A ProbeError) (output : CommandOutput) (f : A → Probed B)
    → (output.status == 0 && is_ok (parse output.stdout)) ≡ true
    → ((a : A) → Follows planned (f a))
    → Follows planned (checked command output >>= λ output. parsed (parse output.stdout) >>= f)
checked-Follows command planned parse output f h k =
    let zero_status : (output.status == 0) ≡ true = ground arith in
    rw zero_status (parsed-Follows planned (parse output.stdout) f (ground arith) k)

checked-Stopped :
    {A B : Type 0} (command : AdbCommand) (parse : Text → Result A ProbeError)
    (output : CommandOutput) (f : A → Probed B)
    → (output.status == 0 && is_ok (parse output.stdout)) ≡ false
    → Stopped (checked command output >>= λ output. parsed (parse output.stdout) >>= f)
checked-Stopped command parse output f h = elim (Bool-cases (output.status == 0)) [
  | inl e ↦ rw e (parsed-Stopped (parse output.stdout) f (ground arith))
  | inr e ↦ rw e (refl, refl)
]

mdns_of-ok : (output : CommandOutput) → is_ok (mdns_of output) ≡ mdns_good output
unfolding mdns_of
mdns_of-ok output = elim (Bool-cases (output.status == 0)) [
  | inl e ↦ rw e refl
  | inr e ↦ elim (Bool-cases (mdns_is_unsupported output)) [
    | inl u ↦ rw (e, u) refl
    | inr u ↦ rw (e, u) refl
  ]
]

-- Whatever adb answers, the probe runs `adb version`, `adb devices -l` and `adb mdns services` in this order
-- and nothing else, up to the first that is not good and no further, and it has a report exactly if all three
-- are. A command is not good where it could not be run, where its status is not 0 (for mdns: unless adb
-- says that it does not know the command), or where what it prints is no version or no list of devices.
pub run_probe-Follows : (runner : Runner) → Follows (steps runner) (run_probe runner)
unfolding run_probe
run_probe-Follows runner =
    ask-Follows version version_good (devices_steps runner) (runner version) _
      (λ output g.
        checked-Follows version (devices_steps runner) parse_version output _ g λ adb_version.
          ask-Follows devices_long devices_good (mdns_step runner) (runner devices_long) _
            (λ output g.
              checked-Follows devices_long (mdns_step runner) parse_devices output _ g λ devices.
                ask-Follows mdns_services mdns_good [] (runner mdns_services) _
                  (λ output g.
                    parsed-Follows [] (mdns_of output) _ (mdns_of-ok output ∙ g)
                      λ mdns. (refl, refl))
                  (λ output g. parsed-Stopped (mdns_of output) _ (mdns_of-ok output ∙ g)))
            (λ output g. checked-Stopped devices_long parse_devices output _ g))
      (λ output g. checked-Stopped version parse_version output _ g)

-- the bytes before the end of the stream, which has no error
abbrev pub bytes_of : List Text → Text
bytes_of [] = []
bytes_of ([] ∷ rest) = []
bytes_of ((b ∷ chunk) ∷ rest) = (b ∷ chunk) ++ bytes_of rest

abbrev pub answers_of : List Text → List (Result Text IoError)
answers_of [] = []
answers_of (chunk ∷ rest) = ok chunk ∷ answers_of rest

abbrev kept : ℕ → Text → CapturedOutput
kept limit t = record { bytes = take limit t; truncated = ltb limit (length t) }

zero_monus : (k : ℕ) → 0 ≡ 0 - k
zero_monus k = omega arith

suc_monus : (a b : ℕ) → suc a - suc b ≡ a - b
suc_monus a b = omega arith

nothing : (limit : ℕ) → [] ≡ take {A = ℕ} limit []
nothing zero = refl
nothing (suc limit) = refl

min-zero : (b : ℕ) → min 0 b ≡ 0
min-zero b = omega arith

monus_zero : (a : ℕ) → a ≡ a - 0
monus_zero a = omega arith

min-suc : (a b : ℕ) → min (suc a) (suc b) ≡ suc (min a b)
min-suc a b = omega arith

take-min : (k : ℕ) (xs : Text) → take (min k (length xs)) xs ≡ take k xs
take-min zero xs = ap (λ n. take n xs) (min-zero (length xs))
take-min (suc k) [] = sym (nothing (min (suc k) 0))
take-min (suc k) (x ∷ xs) = rw (min-suc k (length xs)) (ap {B = Text} (λ r. x ∷ r) (take-min k xs))

take-append : (n : ℕ) (xs ys : Text) → take n (xs ++ ys) ≡ take n xs ++ take (n - length xs) ys
take-append zero xs ys = ap (λ k. take k ys) (zero_monus (length xs))
take-append (suc n) [] ys = ap (λ k. take k ys) (monus_zero (suc n))
take-append (suc n) (x ∷ xs) ys =
    ap {B = Text} (λ r. x ∷ r) (rw (suc_monus n (length xs)) (take-append n xs ys))

room : (limit : ℕ) (t : Text) → limit - length (take limit t) ≡ limit - length t
room limit t = omega (arith, length-take limit t)

stored_bytes :
    (limit : ℕ) (t chunk : Text)
    → (store_chunk limit chunk (kept limit t)).bytes ≡ take limit (t ++ chunk)
stored_bytes limit t chunk =
    rw (room limit t, take-min (limit - length t) chunk, take-append limit t chunk) refl

stored_mark :
    (limit : ℕ) (t chunk : Text)
    → (store_chunk limit chunk (kept limit t)).truncated ≡ ltb limit (length (t ++ chunk))
stored_mark limit t chunk = rw (room limit t, length-append t chunk) (ground arith)

store_chunk-kept :
    (limit : ℕ) (t chunk : Text) → store_chunk limit chunk (kept limit t) ≡ kept limit (t ++ chunk)
store_chunk-kept limit t chunk =
    λ i. record { bytes = stored_bytes limit t chunk i; truncated = stored_mark limit t chunk i }

read_from-kept :
    (limit : ℕ) (chunks : List Text) (t : Text)
    → read_from limit (answers_of chunks) (kept limit t) ≡ ok (kept limit (t ++ bytes_of chunks))
unfolding read_from
read_from-kept limit [] t = rw (append-nil t) refl
read_from-kept limit ([] ∷ rest) t = rw (append-nil t) refl
read_from-kept limit ((b ∷ chunk) ∷ rest) t =
    ap (read_from limit (answers_of rest)) (store_chunk-kept limit t (b ∷ chunk))
    ∙ read_from-kept limit rest (t ++ b ∷ chunk)
    ∙ ap (λ u. ok (kept limit u)) (append_assoc t (b ∷ chunk) (bytes_of rest))

not_more : (limit : ℕ) → false ≡ ltb limit 0
not_more limit = ground arith

-- Of a stream that is read without an error, the first `limit` bytes are kept, and the mark that some
-- were dropped is set exactly if there were more.
pub read_limited-kept :
    (limit : ℕ) (chunks : List Text)
    → read_limited limit (answers_of chunks)
      ≡ ok (record {
        bytes = take limit (bytes_of chunks);
        truncated = ltb limit (length (bytes_of chunks));
      })
unfolding read_limited
read_limited-kept limit chunks =
    ap (read_from limit (answers_of chunks))
      (λ i. record { bytes = nothing limit i; truncated = not_more limit i })
    ∙ read_from-kept limit chunks []
