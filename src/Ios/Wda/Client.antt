-- ===== src/Ios/Wda/Client.antt =====
-- The session that the clones of a `Client` of crates/quadcontrol-ios/src/wda.rs share, and its recreation.
use quad_control.Base.{ℕ, ◌++◌, Option, none, some, Result, ok, err, if◌then◌else◌}
use quad_control.Base.Text.{Text, codes, text_eq}
use quad_control.Ios.Error.{Error, wda_session_failed, wda_unreachable}
use quad_control.Ios.Wda.{
  capabilities, settings, delete, Device, World, Call, pure, raise, or_raise, map_err, ◌>>=◌, ◌>>◌,
  get_raw, post_raw, is_invalid_session, exchange,
}

-- `or_else`
abbrev pub or_else {ℓ} : {A : Type ℓ} → Option A → Option A → Option A
or_else none b = b
or_else (some a) b = some a

abbrev pub and_then : {A B : Type 0} → Option A → (A → Option B) → Option B
and_then none f = none
and_then (some a) f = f a

module _ {S J F : Type 0} (d : Device S J F) where
  unfoldable pub status : Call S F Error J
  unfolding get_raw
  status = map_err wda_unreachable (get_raw d (codes "/status"))

  unfoldable pub session : Call S F Error Text
  session w =
      or_raise w.shared.session_id (wda_session_failed (codes "no WDA session has been created")) w

  -- the id at the top, or in the value
  abbrev pub id_of : J → Option Text
  id_of value =
      and_then
        (or_else (d.field (codes "sessionId") value)
          (and_then (d.field (codes "value") value) (d.field (codes "sessionId"))))
        d.as_str

  abbrev pub remember : Text → Call S F Error Text
  remember id w = (record w { shared = record (w.shared) { session_id = some id } }, ok id)

  unfoldable pub create_session : Call S F Error Text
  unfolding post_raw
  create_session = do
    value ← map_err wda_session_failed (post_raw d (codes "/session") capabilities)
    id ← or_raise (id_of value) (wda_session_failed (codes "WDA response has no sessionId"))
    remember id

  unfoldable pub configure_mjpeg_once : Text → ℕ → ℕ → Call S F Text (Unit {0})
  unfolding post_raw
  configure_mjpeg_once id fps quality = do
    value ← post_raw d (codes "/session/" ++ id ++ codes "/appium/settings") (settings fps quality)
    pure tt

  -- the settings that were set before, on the new session
  abbrev pub replay : Option (ℕ × ℕ) → Call S F Error (Unit {0})
  replay none = pure tt
  replay (some (fps, quality)) = do
    id ← session
    map_err wda_session_failed (configure_mjpeg_once id fps quality)

  unfoldable pub recreate_session : Call S F Error (Unit {0})
  unfolding create_session configure_mjpeg_once session
  recreate_session = create_session >>= λ id w. replay w.shared.mjpeg w

  unfoldable pub recreate_session_unless_replaced : Text → Call S F Error (Unit {0})
  unfolding recreate_session session text_eq
  recreate_session_unless_replaced stale = do
    id ← session
    if text_eq id stale then recreate_session else pure tt

  -- after the first try of a call: once more, if the session was invalid
  abbrev pub retried :
      {A : Type 0}
      → (Text → Call S F Text A)
      → (Text → Error)
      → Text
      → World S F × Result A Text
      → World S F × Result A Error
  retried call wrap id (w, ok value) = (w, ok value)
  retried call wrap id (w, err message) =
      (if is_invalid_session message
          then (do recreate_session_unless_replaced id; fresh ← session; map_err wrap (call fresh))
          else raise (wrap message))
        w

  unfoldable pub session_call :
      {A : Type 0} → (Text → Call S F Text A) → (Text → Error) → Call S F Error A
  unfolding session is_invalid_session recreate_session_unless_replaced
  session_call call wrap = session >>= λ id w. retried call wrap id (call id w)

  unfoldable pub configure_mjpeg : ℕ → ℕ → Call S F Error (Unit {0})
  unfolding session_call configure_mjpeg_once
  configure_mjpeg fps quality w =
      session_call (λ id. configure_mjpeg_once id fps quality) wda_session_failed
        (record w { shared = record (w.shared) { mjpeg = some (fps, quality) } })

  -- whatever the device answers
  unfoldable pub delete_session : Call S F Error (Unit {0})
  unfolding session
  delete_session = session >>= λ id w. ((exchange d (delete (codes "/session/" ++ id)) w).0, ok tt)
