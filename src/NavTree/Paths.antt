-- ===== src/NavTree/Paths.antt =====
-- docs/navtree.js: the parts of addresses and links.
pub mod Laws
pub mod Cut
use Prim.Native.Nat.{zero}
use async_fw.Base.{
  ℕ, suc, ◌+◌, ◌-◌, ◌≡◌, refl, Bool, true, false, ◌&&◌, ◌||◌, not, Option, none, some, List, [],
  ◌∷◌, ◌++◌, map, if◌then◌else◌, ◌==◌, ltb, leb, length, take, drop, any, arith,
}
use async_fw.Base.Text.{Text, codes, text_eq, last_index_of, substring}

-- The regular expressions' `\w`.
abbrev pub is_word : ℕ → Bool
is_word c =
    (leb b'a' c && leb c b'z')
    || ((leb b'A' c && leb c b'Z') || ((leb b'0' c && leb c b'9') || c == b'_'))

unfoldable pub keep : (ℕ → Bool) → Text → Text
keep p [] = []
keep p (c ∷ t) = if p c then c ∷ keep p t else keep p t

unfoldable pub replace_all : ℕ → ℕ → Text → Text
replace_all a b [] = []
replace_all a b (c ∷ t) = (if c == a then b else c) ∷ replace_all a b t

-- `t.replace(a, b)` replaces the first occurrence.
unfoldable pub replace_first : ℕ → ℕ → Text → Text
replace_first a b [] = []
replace_first a b (c ∷ t) = if c == a then b ∷ t else c ∷ replace_first a b t

-- `uri.substring(uri.lastIndexOf('/')+1)`, where a missing "/" counts as -1.
abbrev after_index : Option ℕ → Text → Text
after_index none t = t
after_index (some i) t = drop (suc i) t

unfoldable pub strip_path : Text → Text
strip_path uri = after_index (last_index_of b'/' uri) uri

-- The last eight code units of a text match `/\/d\w\/d\w\w\/$/`.
abbrev is_subdir : Text → Bool
is_subdir (a ∷ b ∷ c ∷ d ∷ e ∷ f ∷ g ∷ h ∷ []) =
    a == b'/'
    && (b == b'd'
        && (is_word c && (d == b'/' && (e == b'd' && (is_word f && (is_word g && h == b'/'))))))
is_subdir _ = false

-- The path from `dX/dXX/` on, if the page lies in such a folder.
abbrev strip_at : Option ℕ → Text → Text
strip_at none uri = uri
strip_at (some i) uri =
    if leb 7 i && is_subdir (substring (i - 7) (suc i) uri)
    then drop (i - 6) uri
    else drop (suc i) uri

unfoldable pub strip_path2 : Text → Text
strip_path2 uri = strip_at (last_index_of b'/' uri) uri

-- `hash` is the part of the address from "#" on.
unfoldable pub hash_value : Text → Text
unfolding keep
hash_value hash = keep (λ c. is_word c || c == b'-') (drop 1 hash)

unfoldable pub hash_url : Text → Text
unfolding hash_value
hash_url hash = b'#' ∷ hash_value hash

abbrev path_chars : Text
path_chars = codes "-+&@#/%?=~_|!:,.;()"

unfoldable pub path_name : Text → Text
unfolding keep
path_name p = keep (λ c. is_word c || any (λ x. c == x) path_chars) p

-- The name of the variable that a script defines.
unfoldable pub var_name : Text → Text
unfolding strip_path replace_all
var_name script_name = replace_all b'-' b'_' (strip_path script_name)

-- `link.split('#')`: the part before the first "#", and the one up to the second, if any.
unfoldable pub split_hash : Text → Text × Option Text
split_hash [] = ([], none)
split_hash (c ∷ t) =
    let (first, second) = split_hash t in
    if c == b'#' then ([], some first) else (c ∷ first, second)
