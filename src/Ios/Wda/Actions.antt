-- ===== src/Ios/Wda/Actions.antt =====
-- What a `Client` of crates/quadcontrol-ios/src/wda.rs does on the device, and how it makes sure of it.
use quad_control.Base.{ℕ, ◌%◌, ◌^◌, Bool, ◌++◌, Option, none, some, is_empty, if◌then◌else◌}
use quad_control.Base.Text.{Text, codes}
use quad_control.Ios.Error.{Error, wda_session_failed, device_locked, activate_app_failed}
use quad_control.Ios.Wda.{
  Body, point, drag, button, bundle, Device, Call, pure, raise, or_raise, ◌>>=◌, get_raw, post_raw,
}
use quad_control.Ios.Wda.Client.{session_call, and_then}

pub record WindowSize : Type 0 where
  pub width : ℕ
  pub height : ℕ

pub record ActiveApp : Type 0 where
  pub bundle_id : Text
  pub pid : ℕ

-- `unwrap_or`
abbrev pub unwrap_or {ℓ} : {A : Type ℓ} → Option A → A → A
unwrap_or none b = b
unwrap_or (some a) b = a

-- a path within a session
abbrev pub at : Text → Text → Text
at id path = codes "/session/" ++ id ++ path

module _ {S J F : Type 0} (d : Device S J F) where
  abbrev pub get_in_session : Text → Call S F Error J
  get_in_session path = session_call d (λ id. get_raw d (at id path)) wda_session_failed

  abbrev pub post_in_session : Text → Body F → (Text → Error) → Call S F Error J
  post_in_session path body = session_call d (λ id. post_raw d (at id path) body)

  abbrev pub done : Call S F Error J → Call S F Error (Unit {0})
  done call = call >>= λ answer. pure tt

  unfoldable pub locked : Call S F Error Bool
  unfolding session_call get_raw
  locked = do
    answer ← get_in_session (codes "/wda/locked")
    or_raise (and_then (d.field (codes "value") answer) d.as_bool)
        (wda_session_failed (codes "locked response has no boolean value"))

  -- nothing is passed on while the device is locked
  abbrev pub unless_locked : {A : Type 0} → Call S F Error A → Call S F Error A
  unless_locked next = locked >>= λ is_locked. if is_locked then raise device_locked else next

  unfoldable pub tap : F → F → Call S F Error (Unit {0})
  unfolding locked session_call post_raw
  tap x y = unless_locked (done (post_in_session (codes "/wda/tap") (point x y) wda_session_failed))

  unfoldable pub swipe : F × F → F × F → F → Call S F Error (Unit {0})
  unfolding locked session_call post_raw
  swipe from to duration_secs =
      let duration =
        if d.is_finite duration_secs
        then d.clamp duration_secs d.swipe_min_secs d.swipe_max_secs
        else d.swipe_min_secs in
      unless_locked (
        done (
          post_in_session (codes "/wda/dragfromtoforduration")
            (drag from.0 from.1 to.0 to.1 duration) wda_session_failed))

  unfoldable pub home : Call S F Error (Unit {0})
  unfolding session_call post_raw
  home =
      done (post_in_session (codes "/wda/pressButton") (button (codes "home")) wda_session_failed)

  unfoldable pub activate_app : Text → Call S F Error (Unit {0})
  unfolding locked session_call post_raw
  activate_app bundle_id =
      if is_empty bundle_id
      then raise (activate_app_failed (codes "empty bundle id"))
      else unless_locked (
          done
            (post_in_session (codes "/wda/apps/activate") (bundle bundle_id) activate_app_failed))

  abbrev pub size_field : J → Text → Call S F Error ℕ
  size_field size name =
      or_raise (and_then (d.field name size) d.as_u64)
        (wda_session_failed (codes "window size has no " ++ name))

  -- the value of an answer, or the answer itself
  abbrev pub value_of : J → J
  value_of answer = unwrap_or (d.field (codes "value") answer) answer

  unfoldable pub window_size : Call S F Error WindowSize
  unfolding session_call get_raw
  window_size = do
    answer ← get_in_session (codes "/window/size")
    width ← size_field (value_of answer) (codes "width")
    height ← size_field (value_of answer) (codes "height")
    pure (record { width = width % 2 ^ 32; height = height % 2 ^ 32 })

  abbrev pub not_empty : Text → Option Text
  not_empty id = if is_empty id then none else some id

  unfoldable pub active_app : Call S F Error ActiveApp
  unfolding session_call get_raw
  active_app = do
    answer ← get_in_session (codes "/wda/activeAppInfo")
    bundle_id ←
        or_raise
          (and_then (and_then (d.field (codes "bundleId") (value_of answer)) d.as_str) not_empty)
          (wda_session_failed (codes "activeAppInfo has no bundleId"))
    pure (record {
      bundle_id = bundle_id;
      pid = unwrap_or (and_then (d.field (codes "pid") (value_of answer)) d.as_u64) 0 % 2 ^ 32;
    })
