-- ===== src/Ios/Session/Outcomes.antt =====
-- How the waits and the failures of crates/quadcontrol-ios/src/session.rs come out: each result of a wait
-- has its cause, and a child's failure its own stage.
use quad_control.Base.{
  ℕ, zero, suc, ◌+◌, ◌≤◌, ◌≡◌, refl, ap, Bool, true, List, [], ◌∷◌, some, leb, any, arith, inl, inr,
  ◌⊎◌, Bool-cases, Option-cases, leb→le,
}
use quad_control.Base.Text.{
  Text, codes, contains, to_ascii_lowercase, one_of, text_eq, eq_ignore_ascii_case,
}
use quad_control.Base.Text.Equality.{text_eq_iff}
use quad_control.Ios.Error.{Error, code}
use quad_control.Ios.Session.{
  ChildKind, tunnel, run_wda, forward_http, forward_mjpeg, Readiness, ready, stop_requested,
  Machine, World, slept, called, stop_received,
}
use quad_control.Ios.Session.Classify.{
  classify_child_failure, first_child_failure, signature_keywords, not_installed_keywords,
  run_wda_failure,
}
use quad_control.Ios.Session.Start.{await_from}
use quad_control.Ios.Session.Hoare.{Then}

module _ (m : Machine) (probe : ℕ → Bool) (pause deadline : ℕ) (late : Error) where
  abbrev pub Caused : Readiness → World → Type 0
  Caused ready w = (t : ℕ) × (probe t ≡ true) × (t ≤ w.clock.now)
  Caused stop_requested w = stop_received m w ≡ true

  abbrev pub Failed : Error → World → Type 0
  Failed e w = (first_child_failure m w ≡ some e) ⊎ ((e ≡ late) × (deadline ≤ w.clock.now))

  -- A wait for the tunnel or for the device's server ends as ready only if it was so at a moment before;
  -- as stopped only if a stop is requested; with an error only if a child has exited, then with the
  -- error of that child, or else if the deadline has passed.
  pub await_from-Caused :
      (fuel : ℕ) (w : World) → Then Caused Failed (await_from m fuel probe pause deadline late w)
  unfolding await_from
  await_from-Caused zero w = tt
  await_from-Caused (suc fuel) w =
      let asked = called m w in
      let next = await_from-Caused fuel (slept (pause + m.os.lag asked.clock.now) asked) in
      elim (Bool-cases (stop_received m w)) [
        | inl s ↦ rw (s, s) refl
        | inr s ↦ elim (Option-cases (first_child_failure m w)) [
          | inr (e, f) ↦ rw (s, f) (inl f)
          | inl f ↦ elim (Bool-cases (probe w.clock.now)) [
            | inl p ↦ rw (s, f, p) (w.clock.now, p, omega arith)
            | inr p ↦ elim (Bool-cases (leb deadline asked.clock.now)) [
              | inl d ↦ rw (s, f, p, d) (inr (refl, leb→le deadline asked.clock.now d))
              | inr d ↦ rw (s, f, p, d) next
            ]
          ]
        ]
      ]

-- the codes that the failure of a child may have
abbrev pub stage_codes : ChildKind → List Text
stage_codes tunnel = codes "tunnel_failed" ∷ []
stage_codes run_wda =
    codes "wda_signature_expired" ∷ codes "wda_not_installed" ∷ codes "wda_unreachable" ∷ []
stage_codes forward_http = codes "forward_failed" ∷ []
stage_codes forward_mjpeg = codes "forward_failed" ∷ []

run_wda_failure-code :
    (lower : Text) → one_of (stage_codes run_wda) (code (run_wda_failure lower)) ≡ true
unfolding code text_eq
run_wda_failure-code lower = elim (Bool-cases (any (λ k. contains k lower) signature_keywords)) [
  | inl s ↦ rw s refl
  | inr s ↦ elim (Bool-cases (any (λ k. contains k lower) not_installed_keywords)) [
    | inl i ↦ rw (s, i) refl
    | inr i ↦ rw (s, i) refl
  ]
]

classify_code :
    (kind : ChildKind) (tail : Text)
    → one_of (stage_codes kind) (code (classify_child_failure kind tail)) ≡ true
unfolding classify_child_failure code text_eq
classify_code tunnel tail = refl
classify_code run_wda tail = run_wda_failure-code (to_ascii_lowercase tail)
classify_code forward_http tail = refl
classify_code forward_mjpeg tail = refl

classify_lower :
    (kind : ChildKind) (a b : Text)
    → to_ascii_lowercase a ≡ to_ascii_lowercase b
    → classify_child_failure kind a ≡ classify_child_failure kind b
unfolding classify_child_failure
classify_lower tunnel a b e = refl
classify_lower run_wda a b e = ap run_wda_failure e
classify_lower forward_http a b e = refl
classify_lower forward_mjpeg a b e = refl

-- The failure of a child has a code of that child's own stage, whatever it wrote; and what it wrote
-- counts without regard to the case of ASCII letters.
pub classify_child_failure-stage :
    (kind : ChildKind) (a b : Text)
    → eq_ignore_ascii_case a b ≡ true
    → (one_of (stage_codes kind) (code (classify_child_failure kind a)) ≡ true)
      × (classify_child_failure kind a ≡ classify_child_failure kind b)
unfolding eq_ignore_ascii_case
classify_child_failure-stage kind a b e =
    (classify_code kind a, classify_lower kind a b ((text_eq_iff _ _).0 e))
