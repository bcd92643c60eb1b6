-- ===== src/Examples/Secret.antt =====
-- Secrets drawn from concrete bytes: runs of crates/quadcontrol-android/src/wireless.rs.
use quad_control.Base.{
  ℕ, zero, suc, ◌≡◌, refl, true, List, [], ◌∷◌, some, ◌==◌, length, all, filter, arith,
}
use quad_control.Base.Text.{codes}
use quad_control.Wireless.Close.{PairingSecret}
use quad_control.Wireless.Secret.{alphanumeric, letter, random_text, generate_pairing_secret}
use quad_control.Wireless.Secret.Drawn.{letters, concat, drawn, random_text-drawn}
use quad_control.Wireless.Secret.ReadBack.{read_payload, generate_pairing_secret-read}

-- two buffers, with bytes that are refused
abbrev buffers : List (List ℕ)
buffers = (1 ∷ 250 ∷ 72 ∷ 11 ∷ 255 ∷ []) ∷ (40 ∷ 61 ∷ 62 ∷ 0 ∷ 7 ∷ 99 ∷ 8 ∷ 247 ∷ 10 ∷ 3 ∷ []) ∷ []

random_text-drawn_example : random_text 5 buffers ≡ drawn 5 [] (letters (concat buffers))
random_text-drawn_example = random_text-drawn 5 buffers

five : random_text 5 buffers ≡ some (codes "1ABez")
unfolding random_text
five = refl

generate_pairing_secret-read_example :
    (s : PairingSecret) × (generate_pairing_secret buffers buffers ≡ some s)
    × (length s.service_name ≡ 17)
    × (length s.password ≡ 12)
    × (read_payload s.payload ≡ some (s.service_name, s.password))
generate_pairing_secret-read_example =
    generate_pairing_secret-read buffers buffers (omega arith) (omega arith)

abbrev below : ℕ → List ℕ
below zero = []
below (suc n) = n ∷ below n

-- Each of the 62 letters stands for four of the bytes.
four_each : all (λ c. length (filter (λ b. letter b == c) (below 248)) == 4) alphanumeric ≡ true
unfolding letter
four_each = refl
