-- ===== src/Android/Select/Laws.antt =====
-- Which device `select_device` chooses.
use quad_control.Base.{
  ◌≡◌, refl, ◌⊎◌, inl, inr, ◌↔◌, true, false, not, List, [], ◌∷◌, Option, none, some, ok, arith,
  find, filter, all, Bool-cases, Option-cases,
}
use quad_control.Base.Text.{Text}
use quad_control.Probe.{Device}
use quad_control.Android.Select.{is_ready, has_serial, select_device, select_named, select_only}

-- `d` is the first device of the list with the serial.
abbrev pub FirstNamed : Text → Device → List Device → Type 0
FirstNamed serial d [] = ⊥
FirstNamed serial d (x ∷ xs) =
    ((has_serial serial x ≡ true) × (x ≡ d))
    ⊎ ((has_serial serial x ≡ false) × FirstNamed serial d xs)

abbrev pub NoneReady : List Device → Type 0
NoneReady xs = all (λ x. not (is_ready x)) xs ≡ true

-- `d` is in the list and ready, and no other place of the list holds a ready device.
abbrev pub OnlyReady : Device → List Device → Type 0
OnlyReady d [] = ⊥
OnlyReady d (x ∷ xs) =
    ((is_ready x ≡ true) × (x ≡ d) × NoneReady xs) ⊎ ((is_ready x ≡ false) × OnlyReady d xs)

-- What a choice must be.
abbrev pub Chosen : List Device → Option Text → Text → Type 0
Chosen list (some serial) s =
    (d : Device) × FirstNamed serial d list × (is_ready d ≡ true) × (s ≡ serial)
Chosen list none s = (d : Device) × OnlyReady d list × (s ≡ d.serial)

find-FirstNamed :
    (serial : Text) (d : Device) (list : List Device)
    → (find (has_serial serial) list ≡ some d) ↔ FirstNamed serial d list
find-FirstNamed serial d [] = ground arith
find-FirstNamed serial d (x ∷ xs) = elim (Bool-cases (has_serial serial x)) [
  | inl e ↦ rw e (ground arith)
  | inr e ↦ rw e (ground (arith, find-FirstNamed serial d xs))
]

filter-NoneReady : (list : List Device) → (filter is_ready list ≡ []) ↔ NoneReady list
filter-NoneReady [] = ground arith
filter-NoneReady (x ∷ xs) = elim (Bool-cases (is_ready x)) [
  | inl e ↦ rw e (ground arith)
  | inr e ↦ rw e (filter-NoneReady xs)
]

filter-OnlyReady :
    (d : Device) (list : List Device) → (filter is_ready list ≡ d ∷ []) ↔ OnlyReady d list
filter-OnlyReady d [] = ground arith
filter-OnlyReady d (x ∷ xs) = elim (Bool-cases (is_ready x)) [
  | inl e ↦ rw e (ground (arith, filter-NoneReady xs))
  | inr e ↦ rw e (ground (arith, filter-OnlyReady d xs))
]

select_only-ok :
    (list ready : List Device) (s : Text)
    → (select_only list ready ≡ ok s) ↔ ((d : Device) × (ready ≡ d ∷ []) × (s ≡ d.serial))
unfolding select_only
select_only-ok list [] s = (λ h. ground arith, λ (d, e, _). ground arith)
select_only-ok list (d ∷ []) s = (λ h. (d, refl, ground arith), λ (d', e, e'). ground arith)
select_only-ok list (a ∷ b ∷ rest) s = (λ h. ground arith, λ (d, e, _). ground arith)

select_named-ok :
    (list : List Device) (serial s : Text)
    → (select_named list serial ≡ ok s) ↔ (
        (d : Device) × (find (has_serial serial) list ≡ some d)
        × (is_ready d ≡ true)
        × (s ≡ serial))
unfolding select_named
select_named-ok list serial s = elim (Option-cases (find (has_serial serial) list)) [
  | inl e ↦ rw e (ground arith)
  | inr (d, e) ↦ rw e (ground (arith, Bool-cases (is_ready d)))
]

-- Without a serial or with one, a device is chosen exactly when it is the one that was meant: the
-- first with the serial, and ready, or the only ready device of the list.
pub select_device-Chosen :
    (list : List Device) (serial : Option Text) (s : Text)
    → (select_device list serial ≡ ok s) ↔ Chosen list serial s
unfolding select_device
select_device-Chosen list none s = (
  (λ h.
      let (d, e, e') = (select_only-ok list (filter is_ready list) s).0 h in
      (d, (filter-OnlyReady d list).0 e, e')),
  λ (d, only, e).
      (select_only-ok list (filter is_ready list) s).1 (d, (filter-OnlyReady d list).1 only, e),
)
select_device-Chosen list (some serial) s = (
  (λ h.
      let (d, e, ready, e') = (select_named-ok list serial s).0 h in
      (d, (find-FirstNamed serial d list).0 e, ready, e')),
  λ (d, first, ready, e).
      (select_named-ok list serial s).1 (d, (find-FirstNamed serial d list).1 first, ready, e),
)
