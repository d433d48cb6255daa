-- ===== src/Zrtp/Crypto/Sas.antt =====
-- The short authentication string of `render_sas_base32` of crypto.rs: which bits it shows.
use dee_lip.Prelude.{
  ℕ, ◌/◌, ◌%◌, ◌^◌, ◌<◌, ◌≡◌, ◌↔◌, refl, ap, true, [], ◌∷◌, ◌==◌, ==_iff, failures, failures-none,
  IsU32, arith,
}
use dee_lip.Zrtp.Crypto.{base32_alphabet, sas_char, render_sas_base32}
use dee_lip.Prelude.{get_or, not, ◌||◌}

-- No two of the 32 characters are the same.
distinct :
    failures
      (λ i.
        failures
          (λ j. not (get_or base32_alphabet i 0 == get_or base32_alphabet j 0) || (i == j))
          32
        == 0)
      32
    ≡ 0
unfolding failures
distinct = refl

same_letter : (i j a b : ℕ) → a ≡ b → (not (a == b) || (i == j)) ≡ true → i ≡ j
same_letter i j a b e h = ground arith

letter_eq :
    (i j : ℕ) → i < 32 → j < 32 → get_or base32_alphabet i 0 ≡ get_or base32_alphabet j 0 → i ≡ j
letter_eq i j hi hj e =
    let row = failures-none _ 32 i hi distinct in
    let cell = failures-none _ 32 j hj ((==_iff _ _).0 row) in
    same_letter i j (get_or base32_alphabet i 0) (get_or base32_alphabet j 0) e cell

-- The twenty bits from bit 12 up, group by group.
groups_eq :
    (v w : ℕ)
    → IsU32 v
    → IsU32 w
    → v / 2 ^ 27 % 32 ≡ w / 2 ^ 27 % 32
    → v / 2 ^ 22 % 32 ≡ w / 2 ^ 22 % 32
    → v / 2 ^ 17 % 32 ≡ w / 2 ^ 17 % 32
    → v / 2 ^ 12 % 32 ≡ w / 2 ^ 12 % 32
    → v / 2 ^ 12 ≡ w / 2 ^ 12
groups_eq v w hv hw a b c d = omega arith

groups_back :
    (v w : ℕ)
    → v / 2 ^ 12 ≡ w / 2 ^ 12
    → (v / 2 ^ 27 % 32 ≡ w / 2 ^ 27 % 32)
      × (v / 2 ^ 22 % 32 ≡ w / 2 ^ 22 % 32)
      × (v / 2 ^ 17 % 32 ≡ w / 2 ^ 17 % 32)
      × (v / 2 ^ 12 % 32 ≡ w / 2 ^ 12 % 32)
groups_back v w e = (omega arith, omega arith, omega arith, omega arith)

sas_char_eq :
    (v w shift : ℕ) → sas_char v shift ≡ sas_char w shift → v / 2 ^ shift % 32 ≡ w / 2 ^ shift % 32
unfolding sas_char
sas_char_eq v w shift e =
    letter_eq (v / 2 ^ shift % 32) (w / 2 ^ shift % 32) (omega arith) (omega arith) e

four_eq {ℓ} :
    {A : Type ℓ} {a b c d a' b' c' d' : A}
    → (a ∷ b ∷ c ∷ d ∷ []) ≡ (a' ∷ b' ∷ c' ∷ d' ∷ [])
    → (a ≡ a') × (b ≡ b') × (c ≡ c') × (d ≡ d')
four_eq e = (cc, cc, cc, cc)

chars_eq :
    (v w : ℕ)
    → render_sas_base32 v ≡ render_sas_base32 w
    → (sas_char v 27 ≡ sas_char w 27)
      × (sas_char v 22 ≡ sas_char w 22)
      × (sas_char v 17 ≡ sas_char w 17)
      × (sas_char v 12 ≡ sas_char w 12)
unfolding render_sas_base32
chars_eq v w = four_eq

chars_same :
    (v w : ℕ)
    → (sas_char v 27 ≡ sas_char w 27)
    → (sas_char v 22 ≡ sas_char w 22)
    → (sas_char v 17 ≡ sas_char w 17)
    → (sas_char v 12 ≡ sas_char w 12)
    → render_sas_base32 v ≡ render_sas_base32 w
unfolding render_sas_base32
chars_same v w a b c d = cc

sas_char_same :
    (v w shift : ℕ) → v / 2 ^ shift % 32 ≡ w / 2 ^ shift % 32 → sas_char v shift ≡ sas_char w shift
unfolding sas_char
sas_char_same v w shift = ap (λ i. get_or base32_alphabet i 0)

-- Two 32-bit SAS values are shown by the same four characters exactly when they agree in their upper twenty
-- bits.
pub render_sas_base32-eq_iff :
    (v w : ℕ)
    → IsU32 v
    → IsU32 w
    → (render_sas_base32 v ≡ render_sas_base32 w) ↔ (v / 2 ^ 12 ≡ w / 2 ^ 12)
render_sas_base32-eq_iff v w hv hw = (
  λ e.
      let (a, b, c, d) = chars_eq v w e in
      groups_eq v w hv hw (sas_char_eq v w 27 a) (sas_char_eq v w 22 b) (sas_char_eq v w 17 c)
        (sas_char_eq v w 12 d),
  λ e.
      let (a, b, c, d) = groups_back v w e in
      chars_same v w (sas_char_same v w 27 a) (sas_char_same v w 22 b) (sas_char_same v w 17 c)
        (sas_char_same v w 12 d),
)
