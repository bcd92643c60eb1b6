-- ===== src/Gui/Pairing.antt =====
-- `PairingStore` of crates/quadcontrol-gui/src-tauri/src/lib.rs, with the workers that `start_pairing`
-- and `pair_manual` spawn. What a worker does before it reports is Wireless; here it is its result.
pub mod Single
use quad_control.Base.{
  ℕ, ◌+◌, ◌-◌, ◌/◌, ◌%◌, ◌^◌, Bool, true, false, not, List, [], ◌∷◌, Option, none, some, Result, ok,
  err, ◌==◌, if◌then◌else◌, filter, any,
}
use quad_control.Base.Text.{Text, codes}
use quad_control.Wireless.{WirelessError, timed_out, cancelled, round_timed_out}

pub data PairingState : Type 0 where
  idle : PairingState
  waiting : (generation started : ℕ) → PairingState
  succeeded : (generation : ℕ) (device_name : Text) → PairingState
  failed : (generation : ℕ) (code : Text) → PairingState
  cancelling : (generation : ℕ) → PairingState

pub record PairingStore : Type 0 where
  pub state : PairingState
  pub cancel : Option ℕ  -- the token, named by the generation it was made for
  pub next_generation : ℕ  -- u64
  pub cancelled_tokens : List ℕ
  pub workers : List ℕ  -- the generations of the workers that have not reported yet

unfoldable pub new : PairingStore
new = record {
  state = idle;
  cancel = none;
  next_generation = 0;
  cancelled_tokens = [];
  workers = [];
}

unfoldable pub pairing_generation : PairingState → ℕ
pairing_generation idle = 0
pairing_generation (waiting generation started) = generation
pairing_generation (succeeded generation device_name) = generation
pairing_generation (failed generation code) = generation
pairing_generation (cancelling generation) = generation

unfoldable pub pairing_is_active : PairingState → Bool
pairing_is_active idle = false
pairing_is_active (waiting generation started) = true
pairing_is_active (succeeded generation device_name) = false
pairing_is_active (failed generation code) = false
pairing_is_active (cancelling generation) = true

-- the match on a result that is not late
accept : PairingStore → ℕ → Result Text Text → PairingState → PairingStore
accept store generation result (cancelling g) = record store { state = idle; cancel = none }
accept store generation (ok name) _ = record store {
  state = succeeded generation name;
  cancel = none;
}
accept store generation (err code) _ = record store {
  state = failed generation code;
  cancel = none;
}

unfoldable pub set_pairing_result : PairingStore → ℕ → Result Text Text → PairingStore
unfolding pairing_generation accept
set_pairing_result store generation result =
    if pairing_generation store.state == generation
    then accept store generation result store.state
    else store

-- the part of `start_pairing` and of `pair_manual` that changes the store, at the moment `now`; the token
-- is new, so it has not been cancelled
unfoldable pub begin : ℕ → PairingStore → PairingStore × Result ℕ Text
unfolding pairing_is_active
begin now store =
    let generation = (store.next_generation + 1) % 2 ^ 64 in
    let counted = record store { next_generation = generation } in
    if pairing_is_active store.state then (counted, err (codes "pairing_already_running")) else (
      record counted {
        state = waiting generation now;
        cancel = some generation;
        workers = generation ∷ store.workers;
        cancelled_tokens = filter (λ g. not (g == generation)) store.cancelled_tokens;
      },
      ok generation,
    )

-- `cancel.cancel()`
abbrev cancel_token : Option ℕ → List ℕ → List ℕ
cancel_token none tokens = tokens
cancel_token (some g) tokens = g ∷ tokens

abbrev cancel_state : PairingStore → PairingState → PairingStore
cancel_state store (waiting generation started) = record store {
  state = cancelling generation;
  cancelled_tokens = cancel_token store.cancel store.cancelled_tokens;
}
cancel_state store _ = store

unfoldable pub cancel_pairing : PairingStore → PairingStore
cancel_pairing store = cancel_state store store.state

-- A worker ends: it reports to the store and is gone.
unfoldable pub report : ℕ → Result Text Text → PairingStore → PairingStore
unfolding set_pairing_result
report generation result store = record (set_pairing_result store generation result) {
  workers = filter (λ g. not (g == generation)) store.workers;
}

abbrev pub is_cancelled : ℕ → PairingStore → Bool
is_cancelled g store = any (λ t. t == g) store.cancelled_tokens

unfoldable pub pairing_error_code : WirelessError → Text
pairing_error_code round_timed_out = codes "pair_timed_out"
pairing_error_code timed_out = codes "pair_timed_out"
pairing_error_code cancelled = codes "pair_cancelled"
pairing_error_code _ = codes "pair_failed"

pub record PairingStatusDto : Type 0 where
  pub generation : ℕ
  pub state : Text
  pub remaining_secs : Option ℕ
  pub device_name : Option Text
  pub error_code : Option Text

-- `now` and `started` are in milliseconds; `-` stops at 0, as `saturating_sub` does
unfoldable pub pairing_status_from : ℕ → PairingState → PairingStatusDto
pairing_status_from now idle = record {
  generation = 0;
  state = codes "idle";
  remaining_secs = none;
  device_name = none;
  error_code = none;
}
pairing_status_from now (waiting generation started) = record {
  generation = generation;
  state = codes "waiting";
  remaining_secs = some (300 - (now - started) / 1000);
  device_name = none;
  error_code = none;
}
pairing_status_from now (succeeded generation device_name) = record {
  generation = generation;
  state = codes "succeeded";
  remaining_secs = none;
  device_name = some device_name;
  error_code = none;
}
pairing_status_from now (failed generation code) = record {
  generation = generation;
  state = codes "failed";
  remaining_secs = none;
  device_name = none;
  error_code = some code;
}
pairing_status_from now (cancelling generation) = record {
  generation = generation;
  state = codes "cancelling";
  remaining_secs = none;
  device_name = none;
  error_code = none;
}
