-- ===== src/Search/Encode.antt =====
-- docs/search/search.js, `convertToId`: the spelling of a search text in the ids of the results.
pub mod Laws
use async_fw.Base.{
  ℕ, zero, suc, ◌+◌, ◌-◌, ◌/◌, ◌%◌, Bool, ◌&&◌, ◌||◌, List, [], ◌∷◌, ◌++◌, if◌then◌else◌, ltb, leb,
}
use async_fw.Base.Text.{Text, codes}

unfoldable pub hex_digit : ℕ → ℕ
hex_digit d = if ltb d 10 then b'0' + d else b'a' + d - 10

-- `n.toString(16)`: the fuel `n` is enough, since every round divides by 16.
hex_with : ℕ → ℕ → Text
hex_with zero n = hex_digit n ∷ []
hex_with (suc fuel) n =
    let rest = hex_with fuel (n / 16) ++ hex_digit (n % 16) ∷ [] in
    if ltb n 16 then hex_digit n ∷ [] else rest

unfoldable pub hex : ℕ → Text
unfolding hex_with
hex n = hex_with n n

-- `/[a-z0-9\u0080-\uFFFF]/`
abbrev pub is_plain : ℕ → Bool
is_plain c =
    (leb b'a' c && leb c b'z') || ((leb b'0' c && leb c b'9') || (leb 0x80 c && leb c 0xFFFF))

unfoldable pub convert_char : ℕ → Text
unfolding hex
convert_char c =
    if is_plain c then c ∷ [] else if ltb c 16 then codes "_0" ++ hex c else codes "_" ++ hex c

unfoldable pub convert_to_id : Text → Text
unfolding convert_char
convert_to_id [] = []
convert_to_id (c ∷ t) = convert_char c ++ convert_to_id t
