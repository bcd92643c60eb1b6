-- ===== src/Ios/Session/Classify.antt =====
-- `classify_child_failure` and `first_child_failure` of crates/quadcontrol-ios/src/session.rs.
use quad_control.Base.{List, [], ◌∷◌, ◌++◌, Option, none, some, any, if◌then◌else◌}
use quad_control.Base.Text.{Text, codes, contains, to_ascii_lowercase}
use quad_control.Ios.Error.{
  Error, tunnel_failed, wda_not_installed, wda_signature_expired, wda_unreachable, forward_failed,
}
use quad_control.Ios.Session.{
  ChildKind, tunnel, run_wda, forward_http, forward_mjpeg, label, Machine, SupervisedChild, World,
  has_exited,
}

abbrev pub signature_keywords : List Text
signature_keywords =
    codes "signature"
    ∷ codes "certificate"
    ∷ codes "provisioning"
    ∷ codes "expired"
    ∷ codes "codesign"
    ∷ codes "ineligible"
    ∷ []

abbrev pub not_installed_keywords : List Text
not_installed_keywords =
    codes "not installed"
    ∷ codes "notinstalled"
    ∷ codes "could not find"
    ∷ codes "no such bundle"
    ∷ codes "application not found"
    ∷ []

abbrev pub run_wda_failure : Text → Error
run_wda_failure lower =
    if any (λ k. contains k lower) signature_keywords
    then wda_signature_expired
        (codes "the WebDriverAgent signature is not valid; re-sign and reinstall it")
    else if any (λ k. contains k lower) not_installed_keywords
    then wda_not_installed (codes "WebDriverAgent is not installed on the device")
    else wda_unreachable (codes "`ios runwda` exited before WDA became ready")

unfoldable pub classify_child_failure : ChildKind → Text → Error
unfolding contains to_ascii_lowercase
classify_child_failure run_wda tail = run_wda_failure (to_ascii_lowercase tail)
classify_child_failure tunnel tail = tunnel_failed (codes "`ios tunnel start` exited")
classify_child_failure forward_http tail =
    forward_failed (codes "`ios " ++ label forward_http ++ codes "` exited")
classify_child_failure forward_mjpeg tail =
    forward_failed (codes "`ios " ++ label forward_mjpeg ++ codes "` exited")

-- the children in their order; the bounded wait for the end of stderr is not counted
unfoldable pub first_failure : Machine → World → List SupervisedChild → Option Error
unfolding classify_child_failure
first_failure m w [] = none
first_failure m w (c ∷ children) =
    let rest = first_failure m w children in
    if has_exited m w c.pid
    then some (classify_child_failure c.kind (m.stderr_tail c.pid))
    else rest

abbrev pub first_child_failure : Machine → World → Option Error
first_child_failure m w = first_failure m w w.children
