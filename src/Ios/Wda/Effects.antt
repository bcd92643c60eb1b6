-- ===== src/Ios/Wda/Effects.antt =====
-- That the actions of crates/quadcontrol-ios/src/wda.rs report what came of them.
use quad_control.Base.{
  Option, none, some, ◌≡◌, refl, ap, Bool, true, false, [], ◌∷◌, Result, ok, err, is_empty,
  if◌then◌else◌,
}
use quad_control.Base.Text.{Text, codes, contains}
use quad_control.Ios.Error.{
  Error, device_locked, wda_session_failed, text_unconfirmed, no_active_element,
}
use quad_control.Ios.Wda.{
  value, Device, World, Call, raise, or_raise, wrapped, continue, get_raw, post_raw,
}
use quad_control.Ios.Wda.Client.{session, session_call}
use quad_control.Ios.Wda.Actions.{locked, tap, swipe, activate_app, at}
use quad_control.Ios.Wda.Verified.{
  value_path, no_element, send_text, element_id, confirm, read_back, read_path, text_of, write,
  write_active,
}

module _ {S J F : Type 0} (d : Device S J F) where
  -- Where the device answers that it is locked, tap, swipe, activate_app and send_text end with that as
  -- their error, and have sent nothing but the question.
  pub locked-refused :
      (w v : World S F) (x y : F) (from to : F × F) (duration : F) (id text : Text)
      → locked d w ≡ (v, ok true)
      → is_empty id ≡ false
      → is_empty text ≡ false
      → (tap d x y w ≡ (v, err device_locked))
        × (swipe d from to duration w ≡ (v, err device_locked))
        × (activate_app d id w ≡ (v, err device_locked))
        × (send_text d text w ≡ (v, err device_locked))
  unfolding tap swipe activate_app send_text
  locked-refused w v x y from to duration id text l i t =
      (rw l refl, rw l refl, rw (i, l) refl, rw (t, l) refl)

  -- the last step of a call that ends well
  pub continue_ok :
      {A B : Type 0} (o : World S F × Result A Error) (f : A → Call S F Error B) (v : World S F)
      (b : B)
      → continue o f ≡ (v, ok b)
      → (u : World S F) × (a : A) × (o ≡ (u, ok a)) × (f a u ≡ (v, ok b))
  continue_ok (u, ok a) f v b h = (u, a, refl, h)
  continue_ok (u, err e) f v b h = cc

  wrapped_ok :
      {A : Type 0} (o : World S F × Result A Text) (wrap : Text → Error) (v : World S F) (a : A)
      → wrapped wrap o ≡ (v, ok a)
      → o ≡ (v, ok a)
  wrapped_ok (u, ok b) wrap v a h = cc
  wrapped_ok (u, err e) wrap v a h = cc

  -- The focused element, as the device answers in the session of the call.
  abbrev pub Focused : World S F → World S F → Text → Type 0
  Focused u v element =
      (active : J) × (session_call d (λ id. get_raw d (at id (codes "/element/active"))) no_element
          u
        ≡ (v, ok active))
      × (element_id d active ≡ some element)

  -- In the session that the client has in `u` the text is posted to the element, then the value of the same
  -- element is asked for in the same session, and the answer has the text in it.
  abbrev pub Written : Text → Text → World S F → World S F → Type 0
  Written text element u v =
      (id : Text) × (u.shared.session_id ≡ some id)
      × (u₁ : World S F) × (posted : J) × (answer : J) × (post_raw d (at id (value_path d element))
            (value text) u
          ≡ (u₁, ok posted))
      × (get_raw d (at id (read_path d element)) u₁ ≡ (v, ok answer))
      × (contains text (text_of d answer) ≡ true)

  -- From `w` to `v`: the device says that it is not locked and which element has the focus, and the text is
  -- written to that element and read back from it.
  abbrev pub Confirmed : Text → World S F → World S F → Type 0
  Confirmed text w v =
      (w₁ : World S F) × (locked d w ≡ (w₁, ok false))
      × (w₂ : World S F) × (element : Text) × Focused w₁ w₂ element
      × Written text element w₂ v

  confirm_ok :
      (b : Bool) (u v : World S F)
      → Path
          (World S F × Result (Unit {0}) Error)
          (if b then (u, ok tt) else (u, err text_unconfirmed))
          (v, ok tt)
      → (b ≡ true) × (u ≡ v)
  confirm_ok true u v h = (refl, ap (λ p. p.0) h)
  confirm_ok false u v h = cc

  session_ok :
      (w u : World S F) (id : Text)
      → session d w ≡ (u, ok id)
      → (u ≡ w) × (w.shared.session_id ≡ some id)
  unfolding session
  session_ok w u id h = known w.shared.session_id h
    where
      known :
          (o : Option Text)
          → or_raise o (wda_session_failed (codes "no WDA session has been created")) w ≡ (u, ok id)
          → (u ≡ w) × (o ≡ some id)
      known none h = cc
      known (some i) h = (cc, cc)

  read :
      (text id element : Text) (w v : World S F)
      → read_back d text id element w ≡ (v, ok tt)
      → (answer : J) × (get_raw d (at id (read_path d element)) w ≡ (v, ok answer))
        × (contains text (text_of d answer) ≡ true)
  read text id element w v h =
      let got = get_raw d (at id (read_path d element)) w in
      let (u, answer, e, f) =
        continue_ok (wrapped wda_session_failed got) (confirm d text) v tt h in
      let (c, same) = confirm_ok (contains text (text_of d answer)) u v f in
      (answer, wrapped_ok got wda_session_failed v answer (rw (← same) e), c)

  written :
      (text element : Text) (w v : World S F)
      → write d text element w ≡ (v, ok tt)
      → Written text element w v
  written text element w v h =
      let (w₁, id, s, h₁) = continue_ok (session d w) _ v tt h in
      let (same, known) = session_ok w w₁ id s in
      let post = post_raw d (at id (value_path d element)) (value text) w₁ in
      let (w₂, posted, p, h₂) =
        continue_ok (wrapped wda_session_failed post) (λ j. read_back d text id element) v tt h₁ in
      let (answer, got, c) = read text id element w₂ v h₂ in
      let sent = wrapped_ok post wda_session_failed w₂ posted p in
      (id, known, w₂, posted, answer, rw (← same) sent, got, c)

  or_raise_ok :
      (o : Option Text) (e : Error) (w v : World S F) (element : Text)
      → or_raise o e w ≡ (v, ok element)
      → (o ≡ some element) × (w ≡ v)
  or_raise_ok none e w v element h = cc
  or_raise_ok (some i) e w v element h = (cc, cc)

  written_active :
      (text : Text) (w v : World S F)
      → write_active d text w ≡ (v, ok tt)
      → (u : World S F) × (element : Text) × Focused w u element × Written text element u v
  written_active text w v h =
      let (w₁, active, s, h₁) =
        continue_ok
          (session_call d (λ id. get_raw d (at id (codes "/element/active"))) no_element w) _ v tt
          h in
      let (w₂, element, e, h₂) =
        continue_ok (or_raise (element_id d active) no_active_element w₁) (write d text) v tt h₁ in
      let (has, same) = or_raise_ok (element_id d active) no_active_element w₁ w₂ element e in
      (w₂, element, (active, rw (← same) s, has), written text element w₂ v h₂)

  refused_or :
      (text : Text) (b : Bool) (w v : World S F)
      → (if b then raise device_locked else write_active d text) w ≡ (v, ok tt)
      → (b ≡ false) × (write_active d text w ≡ (v, ok tt))
  refused_or text true w v h = cc
  refused_or text false w v h = (refl, h)

  -- A text is reported as sent only if it is not empty, the device has answered that it is not locked and which
  -- element has the focus, the text was posted to that element, and what the last request then read as the
  -- value of the same element, in the same session, has the text in it.
  pub send_text-Confirmed :
      (text : Text) (w v : World S F)
      → send_text d text w ≡ (v, ok tt)
      → (is_empty text ≡ false) × Confirmed text w v
  unfolding send_text
  send_text-Confirmed [] w v h = cc
  send_text-Confirmed (c ∷ text) w v h =
      let (w₁, is_locked, l, h₁) =
        continue_ok (locked d w) (λ b. if b then raise device_locked else write_active d (c ∷ text))
          v tt h in
      let (free, h₂) = refused_or (c ∷ text) is_locked w₁ v h₁ in
      let (w₂, element, focused, sent) = written_active (c ∷ text) w₁ v h₂ in
      (refl, (w₁, rw (← free) l, w₂, element, focused, sent))
