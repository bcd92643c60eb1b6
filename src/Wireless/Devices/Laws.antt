-- ===== src/Wireless/Devices/Laws.antt =====
-- Laws of `deduplicate_devices` in crates/quadcontrol-android/src/wireless.rs.
use quad_control.Base.{
  ℕ, ◌≡◌, refl, sym, ap, ◌∙◌, Bool, true, false, List, [], ◌∷◌, ◌++◌, map, ◌==◌, if◌then◌else◌, any,
  All, Bool-cases, inl, inr, ==_iff, not, ◌&&◌,
}
use quad_control.Probe.{Device}
use quad_control.Wireless.Devices.{
  Pairs, same_device, is_adb_name, better, add_device, deduplicate_from, deduplicate_devices,
}

if-cons :
    (b : Bool) (x : ℕ) (xs ys : List ℕ)
    → x ∷ (if b then xs else ys) ≡ (if b then x ∷ xs else x ∷ ys)
if-cons true x xs ys = refl
if-cons false x xs ys = refl

module _ (serials : Pairs) (identity : Device → ℕ) where
  -- The pairs of serials tell of these two devices whether they are one phone.
  abbrev pub Tells : Device → Device → Type 0
  Tells earlier later = same_device serials earlier later ≡ (identity earlier == identity later)

  -- They do so for each device and those after it.
  abbrev pub TellsAll : List Device → Type 0
  TellsAll [] = Unit
  TellsAll (d ∷ devices) = All (Tells d) devices × TellsAll devices

  -- The phones seen, each once, in the order of their first device.
  abbrev pub add_phone : List ℕ → ℕ → List ℕ
  add_phone phones phone = if any (λ p. p == phone) phones then phones else phones ++ phone ∷ []

  unfoldable pub phones_from : List ℕ → List Device → List ℕ
  phones_from phones [] = phones
  phones_from phones (d ∷ devices) = phones_from (add_phone phones (identity d)) devices

  better-identity :
      (existing d : Device)
      → (identity existing == identity d) ≡ true
      → identity (better existing d) ≡ identity existing
  better-identity existing d h = elim (Bool-cases (is_adb_name d && not (is_adb_name existing))) [
    | inl e ↦ rw e (sym ((==_iff (identity existing) (identity d)).0 h))
    | inr e ↦ rw e refl
  ]

  add_device-phones :
      (result : List Device) (d : Device)
      → All (λ r. Tells r d) result
      → map identity (add_device serials result d) ≡ add_phone (map identity result) (identity d)
  unfolding add_device
  add_device-phones [] d h = refl
  add_device-phones (existing ∷ result) d (h, rest) =
      elim (Bool-cases (identity existing == identity d)) [
        | inl e ↦
            rw (h, e)
              (ap {B = List ℕ} (λ p. p ∷ map identity result) (better-identity existing d e))
        | inr e ↦
            rw (h, e)
              (ap {B = List ℕ} (λ p. identity existing ∷ p) (add_device-phones result d rest)
                ∙ if-cons (any (λ p. p == identity d) (map identity result)) (identity existing) _
                    _)
      ]

  add_device-All :
      (Q : Device → Type 0) (result : List Device) (d : Device)
      → All Q result
      → Q d
      → All Q (add_device serials result d)
  unfolding add_device
  add_device-All Q [] d h q = (q, tt)
  add_device-All Q (existing ∷ result) d (h, rest) q =
      elim (Bool-cases (same_device serials existing d)) [
        | inl e ↦ rw e (better-All (is_adb_name d && not (is_adb_name existing)), rest)
        | inr e ↦ rw e (h, add_device-All Q result d rest q)
      ]
    where
      better-All : (b : Bool) → Q (if b then d else existing)
      better-All true = q
      better-All false = h

  -- what the result knows of the devices to come
  abbrev Known : List Device → List Device → Type 0
  Known result devices = All (λ r. All (Tells r) devices) result

  heads :
      (d : Device) (devices result : List Device)
      → Known result (d ∷ devices)
      → All (λ r. Tells r d) result
  heads d devices [] k = tt
  heads d devices (r ∷ result) ((h, _), k) = (h, heads d devices result k)

  tails :
      (d : Device) (devices result : List Device)
      → Known result (d ∷ devices)
      → Known result devices
  tails d devices [] k = tt
  tails d devices (r ∷ result) ((_, h), k) = (h, tails d devices result k)

  deduplicate_from-phones :
      (result devices : List Device)
      → Known result devices
      → TellsAll devices
      → map identity (deduplicate_from serials result devices)
        ≡ phones_from (map identity result) devices
  unfolding deduplicate_from phones_from
  deduplicate_from-phones result [] k t = refl
  deduplicate_from-phones result (d ∷ devices) k (h, t) =
      deduplicate_from-phones (add_device serials result d) devices
        (add_device-All (λ r. All (Tells r) devices) result d (tails d devices result k) h) t
      ∙ ap (λ phones. phones_from phones devices)
          (add_device-phones result d (heads d devices result k))

  -- Where the pairs of serials tell which devices are one phone, the devices that are left are one for
  -- each phone, in the order in which the phones were first listed.
  pub deduplicate_devices-phones :
      (devices : List Device)
      → TellsAll devices
      → map identity (deduplicate_devices devices serials) ≡ phones_from [] devices
  unfolding deduplicate_devices
  deduplicate_devices-phones devices t = deduplicate_from-phones [] devices tt t
