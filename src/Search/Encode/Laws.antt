-- ===== src/Search/Encode/Laws.antt =====
-- docs/search/search.js, `convertToId`: an id begins with another exactly when the texts do.
use async_fw.Base.{
  ℕ, zero, suc, ◌/◌, ◌%◌, ◌<◌, ◌≤◌, ◌≡◌, refl, ap, ◌∙◌, Bool, true, false, ◌&&◌, [], ◌∷◌, ◌++◌,
  ◌==◌, All, ◌||◌, append_assoc, drop, length, arith, Bool-cases, inl, inr, ltb,
}
use async_fw.Base.Text.{Text, starts_with}
use async_fw.Search.Encode.{hex_digit, hex, is_plain, convert_char, convert_to_id}

-- A code unit of 16 bits.
abbrev pub IsUnit : ℕ → Type 0
IsUnit c = c < 65536

hex-small : (n : ℕ) → n < 16 → hex n ≡ hex_digit n ∷ []
unfolding hex
hex-small zero h = refl
hex-small (suc n) h = ground arith

-- A value below 256 has at most two digits.
hex-two : (n : ℕ) → 16 ≤ n → n < 256 → hex n ≡ hex_digit (n / 16) ∷ hex_digit (n % 16) ∷ []
unfolding hex
hex-two zero lo hi = absurd (omega arith)
hex-two (suc zero) lo hi = absurd (omega arith)
hex-two (suc (suc n)) lo hi = ground arith

convert_char-plain : (c : ℕ) → is_plain c ≡ true → convert_char c ≡ c ∷ []
unfolding convert_char
convert_char-plain c p = rw p

coded-lt : (c : ℕ) → IsUnit c → is_plain c ≡ false → c < 128
coded-lt c u p = ground arith

convert_char-coded :
    (c : ℕ)
    → IsUnit c
    → is_plain c ≡ false
    → convert_char c ≡ b'_' ∷ hex_digit (c / 16) ∷ hex_digit (c % 16) ∷ []
unfolding convert_char
convert_char-coded c u p =
    let small = coded-lt c u p in
    elim (Bool-cases (ltb c 16)) [
      | inl lt ↦
          let lt' : c < 16 = ground arith in
          let q : c / 16 ≡ 0 = omega arith in
          let r : c % 16 ≡ c = omega arith in
          rw (p, lt, hex-small c lt', q, r) (unfold hex_digit in refl)
      | inr ge ↦ let ge' : 16 ≤ c = ground arith in rw (p, ge, hex-two c ge' (omega arith))
    ]

hex_digit_inj : (a b : ℕ) → a < 16 → b < 16 → (hex_digit a == hex_digit b) ≡ (a == b)
unfolding hex_digit
hex_digit_inj a b h k = ground arith

digits_inj : (a b : ℕ) → ((a / 16 == b / 16) && (a % 16 == b % 16)) ≡ (a == b)
digits_inj a b = ground arith

plain-ne :
    (a b : ℕ)
    → is_plain a ≡ true
    → is_plain b ≡ false
    → ((a == b) ≡ false) × ((b == a) ≡ false) × ((a == b'_') ≡ false) × ((b'_' == a) ≡ false)
plain-ne a b p q = ground arith

both_coded :
    (a b : ℕ) (s t : Text)
    → a < 128
    → b < 128
    → starts_with
        (hex_digit (a / 16) ∷ hex_digit (a % 16) ∷ s)
        (hex_digit (b / 16) ∷ hex_digit (b % 16) ∷ t)
      ≡ (a == b && starts_with s t)
unfolding starts_with
both_coded a b s t h k =
    rw
      (
        hex_digit_inj (a / 16) (b / 16) (omega arith) (omega arith),
        hex_digit_inj (a % 16) (b % 16) (omega arith) (omega arith),
        ← digits_inj a b,
      )
      (and_assoc (a / 16 == b / 16) (a % 16 == b % 16) (starts_with s t))
  where
    and_assoc : (x y z : Bool) → (x && (y && z)) ≡ ((x && y) && z)
    and_assoc x y z = ground arith

-- The code of one unit is no proper beginning of another code.
starts_with-convert_char :
    (a b : ℕ) (s t : Text)
    → IsUnit a
    → IsUnit b
    → starts_with (convert_char a ++ s) (convert_char b ++ t) ≡ (a == b && starts_with s t)
unfolding starts_with
starts_with-convert_char a b s t u v = elim (Bool-cases (is_plain a)) [
  | inl p ↦ elim (Bool-cases (is_plain b)) [
    | inl q ↦ rw (convert_char-plain a p, convert_char-plain b q)
    | inr q ↦
        let (ne, _, eq, _) = plain-ne a b p q in
        rw (convert_char-plain a p, convert_char-coded b v q, eq, ne)
  ]
  | inr p ↦ elim (Bool-cases (is_plain b)) [
    | inl q ↦
        let (_, ne, _, eq) = plain-ne b a q p in
        rw (convert_char-coded a u p, convert_char-plain b q, eq, ne)
    | inr q ↦
        rw (convert_char-coded a u p, convert_char-coded b v q)
          (both_coded a b s t (coded-lt a u p) (coded-lt b v q))
  ]
]

not-begins : (a : ℕ) (s : Text) → IsUnit a → starts_with (convert_char a ++ s) [] ≡ false
unfolding starts_with
not-begins a s u = elim (Bool-cases (is_plain a)) [
  | inl p ↦ rw (convert_char-plain a p)
  | inr p ↦ rw (convert_char-coded a u p)
]

-- What follows a text in a longer one spells the beginning of `u`.
abbrev pub spills : Text → Text → Text → Bool
spills s t u = starts_with t s && starts_with (convert_to_id (drop (length t) s)) u

-- The spelling of a text `t`, followed by any `u`, begins with the spelling of `s` exactly when `t`
-- begins with `s`, or `s` begins with `t` and the spelling of what follows it begins `u`. The texts
-- are made of 16-bit code units.
pub starts_with-convert_to_id :
    (s t u : Text)
    → All IsUnit s
    → All IsUnit t
    → starts_with (convert_to_id s) (convert_to_id t ++ u) ≡ (starts_with s t || spills s t u)
unfolding convert_to_id starts_with
starts_with-convert_to_id [] [] u p q = refl
starts_with-convert_to_id [] (b ∷ t) u p q = refl
starts_with-convert_to_id (a ∷ s) [] u p q = refl
starts_with-convert_to_id (a ∷ s) (b ∷ t) u p q = rw append_assoc (
    starts_with-convert_char a b (convert_to_id s) (convert_to_id t ++ u) p.0 q.0
    ∙ ap (λ r. a == b && r) (starts_with-convert_to_id s t u p.1 q.1)
    ∙ spread a b (starts_with s t) (starts_with t s)
        (starts_with (convert_to_id (drop (length t) s)) u))
  where
    spread :
        (a b : ℕ) (x y z : Bool)
        → (a == b && (x || (y && z))) ≡ ((a == b && x) || ((b == a && y) && z))
    spread a b x y z = ground arith
