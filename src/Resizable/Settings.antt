-- ===== src/Resizable/Settings.antt =====
-- docs/navtree.js, `initResizable`: the widths as texts in the settings, and `parseInt` of such a
-- text. The widths are whole numbers below the size from which JavaScript prints an exponent.
use async_fw.Base.{
  ℕ, zero, suc, ◌+◌, ◌-◌, ◌*◌, ◌/◌, ◌%◌, ◌<◌, ◌≡◌, refl, ap, ◌∙◌, Bool, true, false, ◌&&◌, ◌||◌,
  Option, none, some, [], ◌∷◌, if◌then◌else◌, ◌==◌, ltb, leb, all, arith, Bool-cases, inl, inr,
  &&_parts,
}
use async_fw.Base.Int.{ℤ, pos, negsuc}
use async_fw.Base.Text.{Text}
use async_fw.Base.Spaces.{is_space, drop_spaces}

-- The decimal digits of a number, before `out`; each round takes one.
abbrev decimal_on : (fuel n : ℕ) → Text → Text
decimal_on zero n out = out
decimal_on (suc f) n out =
    let rest = decimal_on f (n / 10) ((b'0' + n % 10) ∷ out) in
    if ltb n 10 then (b'0' + n) ∷ out else rest

unfoldable pub decimal : ℕ → Text
decimal n = decimal_on (suc n) n []

unfoldable pub int_text : ℤ → Text
unfolding decimal
int_text (pos n) = decimal n
int_text (negsuc n) = b'-' ∷ decimal (suc n)

-- The value of a digit, or 16.
abbrev pub digit_value : ℕ → ℕ
digit_value c =
    if leb b'0' c && leb c b'9'
    then c - b'0'
    else if leb b'a' c && leb c b'f'
    then c - b'a' + 10
    else if leb b'A' c && leb c b'F'
    then c - b'A' + 10
    else 16

unfoldable pub read_digits : (base so_far : ℕ) → Text → ℕ
read_digits base n [] = n
read_digits base n (c ∷ t) =
    let longer = read_digits base (n * base + digit_value c) t in
    if ltb (digit_value c) base then longer else n

-- `none` is `NaN`.
abbrev pub number_in : (base : ℕ) → Text → Option ℕ
number_in base [] = none
number_in base (c ∷ t) =
    if ltb (digit_value c) base then some (read_digits base 0 (c ∷ t)) else none

unfoldable pub unsigned : Text → Option ℕ
unfolding read_digits
unsigned (a ∷ b ∷ t) =
    if a == b'0' && (b == b'x' || b == b'X') then number_in 16 t else number_in 10 (a ∷ b ∷ t)
unsigned t = number_in 10 t

abbrev negate : ℕ → ℤ
negate zero = pos 0
negate (suc n) = negsuc n

abbrev map_sign : (ℕ → ℤ) → Option ℕ → Option ℤ
map_sign f none = none
map_sign f (some n) = some (f n)

unfoldable pub signed : Text → Option ℤ
unfolding unsigned
signed [] = none
signed (c ∷ t) =
    if c == b'-'
    then map_sign negate (unsigned t)
    else if c == b'+'
    then map_sign pos (unsigned t)
    else map_sign pos (unsigned (c ∷ t))

-- `parseInt(t)`
unfoldable pub parse_int : Text → Option ℤ
unfolding signed drop_spaces
parse_int t = signed (drop_spaces t)

abbrev is_digit : ℕ → Bool
is_digit c = leb b'0' c && leb c b'9'

-- A text of digits, and at least one.
abbrev IsDecimal : Text → Type 0
IsDecimal [] = ⊥
IsDecimal (c ∷ t) = all is_digit (c ∷ t) ≡ true

decimal_on-IsDecimal :
    (f n : ℕ) (out : Text) → n < f → all is_digit out ≡ true → IsDecimal (decimal_on f n out)
decimal_on-IsDecimal zero n out lt h = absurd (omega arith)
decimal_on-IsDecimal (suc f) n out lt h = elim (Bool-cases (ltb n 10)) [
  | inl small ↦ let digit : is_digit (b'0' + n) ≡ true = ground arith in rw small (rw digit h)
  | inr large ↦
      let digit : is_digit (b'0' + n % 10) ≡ true = ground arith in
      let less : n / 10 < f = ground arith in
      rw large (decimal_on-IsDecimal f (n / 10) ((b'0' + n % 10) ∷ out) less (rw digit h))
]

-- Reading the digits of a number brings it back.
read_digits-decimal_on :
    (f n : ℕ) (out : Text) → n < f → read_digits 10 0 (decimal_on f n out) ≡ read_digits 10 n out
unfolding read_digits
read_digits-decimal_on zero n out lt = absurd (omega arith)
read_digits-decimal_on (suc f) n out lt = elim (Bool-cases (ltb n 10)) [
  | inl small ↦
      let value : digit_value (b'0' + n) ≡ n = ground arith in
      rw (small, value, small) (ap (λ k. read_digits 10 k out) (omega arith))
  | inr large ↦
      let value : digit_value (b'0' + n % 10) ≡ n % 10 = ground arith in
      let last : ltb (n % 10) 10 ≡ true = ground arith in
      let less : n / 10 < f = ground arith in
      rw large (
        read_digits-decimal_on f (n / 10) ((b'0' + n % 10) ∷ out) less
        ∙ rw (value, last) (ap (λ k. read_digits 10 k out) (omega arith)))
]

digit-value : (c : ℕ) → is_digit c ≡ true → ltb (digit_value c) 10 ≡ true
digit-value c h = ground arith

digit-other : (c d : ℕ) → is_digit c ≡ true → is_digit d ≡ false → (c == d) ≡ false
digit-other c d h k = ground arith

digit-is_space : (c : ℕ) → is_digit c ≡ true → is_space c ≡ false
unfolding is_space
digit-is_space c h = ground arith

unsigned-IsDecimal : (t : Text) → IsDecimal t → unsigned t ≡ some (read_digits 10 0 t)
unfolding unsigned
unsigned-IsDecimal [] h = absurd h
unsigned-IsDecimal (a ∷ []) h = rw (digit-value a (&&_parts (is_digit a) true h).0) refl
unsigned-IsDecimal (a ∷ b ∷ t) h =
    let (first, rest) = &&_parts (is_digit a) (all is_digit (b ∷ t)) h in
    let (second, _) = &&_parts (is_digit b) (all is_digit t) rest in
    rw
      (
        digit-other b b'x' second refl,
        digit-other b b'X' second refl,
        and_false (a == b'0'),
        digit-value a first,
      )
      refl
  where
    and_false : (b : Bool) → (b && false) ≡ false
    and_false true = refl
    and_false false = refl

parse_int-IsDecimal : (t : Text) → IsDecimal t → parse_int t ≡ some (pos (read_digits 10 0 t))
unfolding parse_int
parse_int-IsDecimal [] h = absurd h
parse_int-IsDecimal (c ∷ t) h =
    let (first, _) = &&_parts (is_digit c) (all is_digit t) h in
    rw
      (
        digit-is_space c first,
        digit-other c b'-' first refl,
        digit-other c b'+' first refl,
        unsigned-IsDecimal (c ∷ t) h,
      )
      refl

-- A width is read back from its text.
pub parse_int-int_text : (a : ℤ) → parse_int (int_text a) ≡ some a
unfolding int_text
parse_int-int_text (pos n) =
    parse_int-IsDecimal (decimal n) (decimal_on-IsDecimal (suc n) n [] (omega arith) refl)
    ∙ ap (λ k. some (pos k))
        (read_digits-decimal_on (suc n) n [] (omega arith) ∙ unfold read_digits in refl)
parse_int-int_text (negsuc n) =
    unfold parse_int is_space in
    rw
      (unsigned-IsDecimal (decimal (suc n))
        (decimal_on-IsDecimal (suc (suc n)) (suc n) [] (omega arith) refl))
      (ap (λ k. some (negate k))
        (read_digits-decimal_on (suc (suc n)) (suc n) [] (omega arith)
          ∙ unfold read_digits in refl))
