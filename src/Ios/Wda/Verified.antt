-- ===== src/Ios/Wda/Verified.antt =====
-- `wake` and `send_text` of crates/quadcontrol-ios/src/wda.rs, which look at the device for what came of
-- them.
use quad_control.Base.{
  ℕ, zero, suc, ◌+◌, Bool, true, false, [], ◌++◌, Option, none, some, Result, ok, err, is_empty,
  leb, if◌then◌else◌,
}
use quad_control.Base.Text.{Text, codes, contains}
use quad_control.Ios.Error.{
  Error, wda_session_failed, device_locked, no_active_element, text_unconfirmed,
}
use quad_control.Ios.Wda.{
  empty, value, Device, World, Call, raise, or_raise, map_err, ◌>>=◌, ◌>>◌, get_raw, unreadable,
  post_raw, exchange, answered, Reply, post,
}
use quad_control.Ios.Wda.Client.{session, session_call, and_then, or_else}
use quad_control.Ios.Wda.Actions.{locked, at, value_of, unwrap_or, unless_locked}

-- `unlock.is_err()`, negated
abbrev has_answered : Reply → Bool
has_answered (answered _) = true
has_answered (unreadable _) = true
has_answered _ = false

abbrev pub no_element : Text → Error
no_element message =
    if contains (codes "nosuchelement") message
    then no_active_element
    else wda_session_failed message

module _ {S J F : Type 0} (d : Device S J F) where
  -- the answer to the request is dropped, but not whether it came
  unfoldable pub unlock : Call S F Error Bool
  unfolding session
  unlock = session d >>= λ id w.
      let (w', reply) = exchange d (post (at id (codes "/wda/unlock")) empty) w in
      (w', ok (has_answered reply))

  abbrev pub napped : World S F → World S F
  napped w = record w { device = d.slept 100 w.device }

  -- none: the bound on the number of polls was reached
  abbrev pub Waiting : Type 0
  Waiting = Option (World S F × Result (Unit {0}) Error)

  -- `Ok` where the device is not locked
  abbrev pub if_locked : World S F × Result Bool Error → (World S F → Waiting) → Waiting
  if_locked (w, ok true) next = next w
  if_locked (w, ok false) next = some (w, ok tt)
  if_locked (w, err e) next = some (w, err e)

  unfoldable pub settle_from : ℕ → ℕ → World S F → Waiting
  unfolding locked
  settle_from zero deadline w = none
  settle_from (suc fuel) deadline w = if_locked (locked d w) λ w'.
      let rest = settle_from fuel deadline (napped w') in
      if leb deadline (d.now w'.device) then some (w', err device_locked) else rest

  abbrev pub after_unlock : World S F × Result Bool Error → Waiting
  after_unlock (w, ok true) = settle_from 21 (d.now w.device + 2000) w
  after_unlock (w, ok false) = if_locked (locked d w) (λ w'. some (w', err device_locked))
  after_unlock (w, err e) = some (w, err e)

  unfoldable pub wake : World S F → Waiting
  unfolding settle_from unlock locked
  wake w = if_locked (locked d w) (λ w'. after_unlock (unlock w'))

  -- the older key first
  unfoldable pub element_id : J → Option Text
  element_id answer =
      let holder = value_of d answer in
      or_else (and_then (d.field (codes "ELEMENT") holder) d.as_str)
        (and_then (d.field (codes "element-6066-11e4-a52e-4f735466cecf") holder) d.as_str)

  abbrev pub value_path : Text → Text
  value_path element = codes "/element/" ++ element ++ codes "/value"

  abbrev pub read_path : Text → Text
  read_path element = codes "/element/" ++ element ++ codes "/attribute/value"

  -- the text of an answer, empty where it has none
  abbrev pub text_of : J → Text
  text_of answer = unwrap_or (and_then (d.field (codes "value") answer) d.as_str) []

  abbrev pub confirm : Text → J → Call S F Error (Unit {0})
  confirm text answer w =
      if contains text (text_of answer) then (w, ok tt) else (w, err text_unconfirmed)

  abbrev pub read_back : Text → Text → Text → Call S F Error (Unit {0})
  read_back text id element =
      map_err wda_session_failed (get_raw d (at id (read_path element))) >>= confirm text

  -- with the element that has the focus
  abbrev pub write : Text → Text → Call S F Error (Unit {0})
  write text element = do
    id ← session d
    map_err wda_session_failed (post_raw d (at id (value_path element)) (value text))
    read_back text id element

  abbrev pub write_active : Text → Call S F Error (Unit {0})
  write_active text = do
    active ← session_call d (λ id. get_raw d (at id (codes "/element/active"))) no_element
    element ← or_raise (element_id active) no_active_element
    write text element

  unfoldable pub send_text : Text → Call S F Error (Unit {0})
  unfolding locked session_call session get_raw post_raw element_id contains
  send_text text =
      if is_empty text
      then raise (wda_session_failed (codes "empty text"))
      else unless_locked d (write_active text)
