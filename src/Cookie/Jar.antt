-- ===== src/Cookie/Jar.antt =====
-- What docs/cookie.js uses of the browser: a `Storage` object as an association list, and the
-- cookie jar behind `document.cookie`.
use async_fw.Base.{
  ℕ, ◌≡◌, refl, Bool, ◌&&◌, ◌||◌, not, any, ltb, Option, none, some, List, [], ◌∷◌, ◌++◌,
  if◌then◌else◌, ◌==◌, arith,
}
use async_fw.Base.Text.{Text, text_eq, text_eq_iff, Free}

abbrev pub Storage : Type 0
Storage = List (Text × Text)

unfoldable pub get_item : Text → Storage → Option Text
get_item k [] = none
get_item k ((j, v) ∷ m) = if text_eq j k then some v else get_item k m

-- A new key goes to the end, and a known one keeps its place.
unfoldable pub set_item : Text → Text → Storage → Storage
set_item k v [] = (k, v) ∷ []
set_item k v ((j, w) ∷ m) = if text_eq j k then (j, v) ∷ m else (j, w) ∷ set_item k v m

unfoldable pub remove_item : Text → Storage → Storage
remove_item k [] = []
remove_item k ((j, v) ∷ m) = if text_eq j k then remove_item k m else (j, v) ∷ remove_item k m

pub get_item-set_item :
    (k j v : Text) (m : Storage)
    → get_item j (set_item k v m) ≡ (if text_eq k j then some v else get_item j m)
unfolding get_item set_item
get_item-set_item k j v [] = refl
get_item-set_item k j v ((i, w) ∷ m) =
    ground (arith, text_eq_iff i k, text_eq_iff i j, text_eq_iff k j, get_item-set_item k j v m)

pub get_item-remove_item :
    (k j : Text) (m : Storage)
    → get_item j (remove_item k m) ≡ (if text_eq k j then none else get_item j m)
unfolding get_item remove_item
get_item-remove_item k j [] = ground arith
get_item-remove_item k j ((i, w) ∷ m) =
    ground (arith, text_eq_iff i k, text_eq_iff i j, text_eq_iff k j, get_item-remove_item k j m)

-- The getter of `document.cookie`: the pairs `name=value`, joined by "; ".
unfoldable pub document_cookie : Storage → Text
document_cookie [] = []
document_cookie ((k, v) ∷ []) = k ++ b'=' ∷ v
document_cookie ((k, v) ∷ p ∷ m) = k ++ b'=' ∷ (v ++ b';' ∷ b' ' ∷ document_cookie (p ∷ m))

-- The setter, as RFC 6265 and its revision have it: the text up to the first ";" is the pair, up to
-- its first "=" the name. Blanks around the name and the value do not count. A line with a control
-- character other than a tab, with no "=" in its pair or with an empty name sets nothing. A date of
-- expiry that is past removes the cookie.
unfoldable pub before : ℕ → Text → Text
before c [] = []
before c (x ∷ t) = if x == c then [] else x ∷ before c t

unfoldable pub after : ℕ → Text → Text
after c [] = []
after c (x ∷ t) = if x == c then t else after c t

abbrev pub is_wsp : ℕ → Bool
is_wsp c = c == b' ' || c == b'\t'

abbrev pub is_control : ℕ → Bool
is_control c = not (c == b'\t') && (ltb c 32 || c == 127)

unfoldable pub trim_leading : Text → Text
trim_leading [] = []
trim_leading (c ∷ t) = if is_wsp c then trim_leading t else c ∷ t

unfoldable pub trim_trailing : Text → Text
trim_trailing [] = []
trim_trailing (c ∷ t) = elim (trim_trailing t) [
  | [] ↦ if is_wsp c then [] else c ∷ []
  | x ∷ r ↦ c ∷ x ∷ r
]

unfoldable pub trim : Text → Text
unfolding trim_leading trim_trailing
trim t = trim_trailing (trim_leading t)

unfoldable pub assign_cookie : Text → (expired : Bool) → Storage → Storage
unfolding trim text_eq
assign_cookie line expired m =
    let pair = before b';' line in
    let name = trim (before b'=' pair) in
    if any is_control line || (not (any (λ c. c == b'=') pair) || text_eq name [])
    then m
    else if expired
    then remove_item name m
    else set_item name (trim (after b'=' pair)) m

pub before-append : (c : ℕ) (s t : Text) → Free c s → before c (s ++ c ∷ t) ≡ s
unfolding before
before-append c [] t h = ground arith
before-append c (x ∷ s) t h = ground (arith, before-append c s t)

pub after-append : (c : ℕ) (s t : Text) → Free c s → after c (s ++ c ∷ t) ≡ t
unfolding after
after-append c [] t h = ground arith
after-append c (x ∷ s) t h = ground (arith, after-append c s t)
