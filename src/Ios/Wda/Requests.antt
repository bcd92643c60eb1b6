-- ===== src/Ios/Wda/Requests.antt =====
-- How many requests a call in a session of crates/quadcontrol-ios/src/wda.rs takes, and that it recovers from
-- the loss of the session.
use quad_control.Base.{
  ℕ, ◌+◌, ◌≤◌, ◌≡◌, refl, ap, ◌∙◌, Bool, true, false, List, ◌++◌, Option, none, some, Result, ok,
  err, length, filter, if◌then◌else◌, arith,
}
use quad_control.Base.Text.{Text, codes, text_eq}
use quad_control.Base.Text.Equality.{text_eq_refl}
use quad_control.Ios.Error.{Error, wda_session_failed}
use quad_control.Ios.Wda.{
  capabilities, settings, Request, post, Device, World, Call, raise, or_raise, map_err, wrapped,
  continue, ◌>>=◌, ◌>>◌, post_raw, is_invalid_session,
}
use quad_control.Ios.Wda.Client.{
  session, create_session, remember, id_of, configure_mjpeg_once, replay, recreate_session,
  recreate_session_unless_replaced, retried, session_call,
}

abbrev pub creates : {F : Type 0} → Request F → Bool
creates (post _ capabilities) = true
creates _ = false

abbrev pub creations : {F : Type 0} → List (Request F) → ℕ
creations rs = length (filter creates rs)

module _ {S F : Type 0} where
  -- from `w` to `v` at most `n` requests, of which at most `c` create a session
  abbrev pub Sends : ℕ → ℕ → World S F → World S F → Type 0
  Sends n c w v = (length v.sent ≤ length w.sent + n) × (creations v.sent ≤ creations w.sent + c)

  abbrev pub Within : {E A : Type 0} → ℕ → ℕ → Call S F E A → Type 0
  Within n c m = (w : World S F) → Sends n c w (m w).0

  continue-Sends :
      {E A B : Type 0} (n c k l : ℕ) (w : World S F) (o : World S F × Result A E)
      (f : A → Call S F E B)
      → Sends n c w o.0
      → ((a : A) → Within k l (f a))
      → Sends (n + k) (c + l) w (continue o f).0
  continue-Sends n c k l w (v, ok a) f h g =
      let (p, q) = g a v in (omega (arith, p, h), omega (arith, q, h))
  continue-Sends n c k l w (v, err e) f h g = (omega (arith, h), omega (arith, h))

  wrapped-Sends :
      {D E A : Type 0} (n c : ℕ) (w : World S F) (wrap : E → D) (o : World S F × Result A E)
      → Sends n c w o.0
      → Sends n c w (wrapped wrap o).0
  wrapped-Sends n c w wrap (v, ok a) h = h
  wrapped-Sends n c w wrap (v, err e) h = h

  or_raise-Sends : {E A : Type 0} (o : Option A) (e : E) → Within 0 0 (or_raise {S = S} {F = F} o e)
  or_raise-Sends none e w = (omega arith, omega arith)
  or_raise-Sends (some a) e w = (omega arith, omega arith)

  if-Sends :
      {E A : Type 0} (n c : ℕ) (b : Bool) (f g : Call S F E A)
      → Within n c f
      → Within n c g
      → Within n c (if b then f else g)
  if-Sends n c true f g h k = h
  if-Sends n c false f g h k = k

module _ {S J F : Type 0} (d : Device S J F) where
  create_session-Sends : Within 1 1 (create_session d)
  unfolding create_session post_raw
  create_session-Sends w =
      let posted = post_raw d (codes "/session") capabilities w in
      continue-Sends 1 1 0 0 w (wrapped wda_session_failed posted) _
        (wrapped-Sends 1 1 w wda_session_failed posted (omega arith, omega arith))
        λ j v.
          continue-Sends 0 0 0 0 v (or_raise (id_of d j) no_id v) (remember d)
            (or_raise-Sends (id_of d j) no_id v) (λ id u. (omega arith, omega arith))
    where
      no_id : Error
      no_id = wda_session_failed (codes "WDA response has no sessionId")

  configure_mjpeg_once-Sends :
      (id : Text) (fps quality : ℕ) → Within 1 0 (configure_mjpeg_once d id fps quality)
  unfolding configure_mjpeg_once post_raw
  configure_mjpeg_once-Sends id fps quality w =
      continue-Sends 1 0 0 0 w
        (post_raw d (codes "/session/" ++ id ++ codes "/appium/settings") (settings fps quality) w)
        _ (omega arith, omega arith) (λ j v. (omega arith, omega arith))

  session-Sends : Within 0 0 (session d)
  unfolding session
  session-Sends w = or_raise-Sends w.shared.session_id _ w

  replay-Sends : (s : Option (ℕ × ℕ)) → Within 1 0 (replay d s)
  replay-Sends none w = (omega arith, omega arith)
  replay-Sends (some (fps, quality)) w =
      continue-Sends 0 0 1 0 w (session d w) _ (session-Sends w) λ id v.
        wrapped-Sends 1 0 v wda_session_failed (configure_mjpeg_once d id fps quality v)
          (configure_mjpeg_once-Sends id fps quality v)

  recreate_session-Sends : Within 2 1 (recreate_session d)
  unfolding recreate_session
  recreate_session-Sends w =
      continue-Sends 1 1 1 0 w (create_session d w) _ (create_session-Sends w)
        (λ id v. replay-Sends v.shared.mjpeg v)

  recreate_unless-Sends : (stale : Text) → Within 2 1 (recreate_session_unless_replaced d stale)
  unfolding recreate_session_unless_replaced
  recreate_unless-Sends stale w = continue-Sends 0 0 2 1 w (session d w) _ (session-Sends w) λ id.
      if-Sends 2 1 (text_eq id stale) (recreate_session d) _ recreate_session-Sends
        (λ v. (omega arith, omega arith))

  session_known :
      (w : World S F) (id : Text) → w.shared.session_id ≡ some id → session d w ≡ (w, ok id)
  unfolding session
  session_known w id s =
      ap (λ o. or_raise o (wda_session_failed (codes "no WDA session has been created")) w) s

  recreated :
      (w v u : World S F) (id : Text) (fps quality : ℕ)
      → create_session d w ≡ (v, ok id)
      → v.shared.session_id ≡ some id
      → v.shared.mjpeg ≡ some (fps, quality)
      → configure_mjpeg_once d id fps quality v ≡ (u, ok tt)
      → recreate_session d w ≡ (u, ok tt)
  unfolding recreate_session
  recreated w v u id fps quality k s m r =
      rw k (ap (λ o. replay d o v) m ∙ rw (session_known v id s, r) refl)

  module _ {A : Type 0} (call : Text → Call S F Text A) (wrap : Text → Error)
      (one : (id : Text) → Within 1 0 (call id)) where
    -- the second try, with a session that is not the invalid one
    abbrev again : Text → Call S F Error A
    again id = do
      recreate_session_unless_replaced d id
      fresh ← session d
      map_err wrap (call fresh)

    again-Sends : (id : Text) → Within 3 1 (again id)
    again-Sends id w =
        continue-Sends 2 1 1 0 w (recreate_session_unless_replaced d id w) _
          (recreate_unless-Sends id w)
          λ u v.
            continue-Sends 0 0 1 0 v (session d v) _ (session-Sends v)
              λ fresh u. wrapped-Sends 1 0 u wrap (call fresh u) (one fresh u)

    retried-Sends :
        (id : Text) (w : World S F) (o : World S F × Result A Text)
        → Sends 1 0 w o.0
        → Sends 4 1 w (retried d call wrap id o).0
    retried-Sends id w (v, ok a) h = (omega (arith, h), omega (arith, h))
    retried-Sends id w (v, err message) h =
        let (p, q) =
          if-Sends {A = A} 3 1 (is_invalid_session message) (again id) (raise (wrap message))
            (again-Sends id) (λ v. (omega arith, omega arith)) v in
        (omega (arith, h, p), omega (arith, h, q))

    -- A call in a session that itself takes one request takes at most four in all, of which at most one
    -- creates a session: it tries again only once.
    pub session_call-Sends : Within 4 1 (session_call d call wrap)
    unfolding session_call
    session_call-Sends w =
        continue-Sends 0 0 4 1 w (session d w) _ (session-Sends w)
          (λ id v. retried-Sends id v (call id v) (one id v))

    -- A call whose session another client has made invalid, where no clone has replaced it: a session is
    -- created, the video settings that were made before are made again, and the call's result is that of
    -- its second try, in the new session.
    pub session_call-recovers :
        (old new : Text) (fps quality : ℕ) (message : Text) (w w₁ w₂ w₃ : World S F)
        → w.shared.session_id ≡ some old
        → call old w ≡ (w₁, err message)
        → is_invalid_session message ≡ true
        → w₁.shared.session_id ≡ some old
        → create_session d w₁ ≡ (w₂, ok new)
        → w₂.shared.session_id ≡ some new
        → w₂.shared.mjpeg ≡ some (fps, quality)
        → configure_mjpeg_once d new fps quality w₂ ≡ (w₃, ok tt)
        → w₃.shared.session_id ≡ some new
        → session_call d call wrap w ≡ wrapped wrap (call new w₃)
    unfolding session_call recreate_session_unless_replaced
    session_call-recovers old new fps quality message w w₁ w₂ w₃ s c i s₁ k s₂ v₂ r s₃ =
        rw
          (
            session_known w old s,
            c,
            i,
            session_known w₁ old s₁,
            text_eq_refl old,
            recreated w₁ w₂ w₃ new fps quality k s₂ v₂ r,
            session_known w₃ new s₃,
          )
          refl
