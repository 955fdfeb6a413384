-- ===== src/NavTree/Index.antt =====
-- docs/navtree.js, `gotoUrl` and `gotoNode`: which index file holds a page, and its place there.
pub mod Search
use async_fw.Base.{
  ℕ, zero, suc, ◌-◌, ◌≡◌, Bool, true, false, ◌&&◌, not, Option, none, some, List, [], ◌∷◌,
  if◌then◌else◌, all, get_elem?,
}
use async_fw.Base.Text.{Text, text_eq, text_leb}

-- One index file: links and their places in the tree.
abbrev pub Shard : Type 0
Shard = List (Text × List ℕ)

-- How often `while (NAVTREEINDEX[i+1]<=url) i++` runs: past the end the test fails.
unfoldable pub advance : List Text → Text → ℕ
advance [] url = 0
advance (b ∷ bs) url = if text_leb b url then suc (advance bs url) else 0

-- The file to look in: the loop starts from -1, and a url before the first page is looked up in
-- the first file.
unfoldable pub shard_of : List Text → Text → ℕ
unfolding advance
shard_of bounds url = advance bounds url - 1

unfoldable pub place_in : Shard → Text → Option (List ℕ)
place_in [] url = none
place_in ((k, p) ∷ s) url = if text_eq k url then some p else place_in s url

abbrev pub place_of : Option Shard → Text → Option (List ℕ)
place_of none url = none
place_of (some s) url = place_in s url

-- The place of a url once the file is loaded.
unfoldable pub locate : List Text → List Shard → Text → Option (List ℕ)
unfolding shard_of place_in
locate bounds shards url = place_of (get_elem? shards (shard_of bounds url)) url

-- What makes the index work: the first pages ascend, the pages of a file ascend, and each lies
-- between the first page of its file and that of the next.
abbrev pub text_ltb : Text → Text → Bool
text_ltb a b = not (text_leb b a)

unfoldable pub sorted : List Text → Bool
sorted [] = true
sorted (b ∷ bs) = all (text_leb b) bs && sorted bs

unfoldable pub ascends : Shard → Bool
ascends [] = true
ascends ((k, p) ∷ []) = true
ascends ((k, p) ∷ (j, q) ∷ s) = text_ltb k j && ascends ((j, q) ∷ s)

abbrev pub below : Text → Option Text → Bool
below k none = true
below k (some hi) = text_ltb k hi

unfoldable pub in_range : Text → Option Text → Shard → Bool
in_range lo hi [] = true
in_range lo hi ((k, p) ∷ s) = text_leb lo k && (below k hi && in_range lo hi s)

abbrev pub next : List Text → Option Text
next [] = none
next (b ∷ bs) = some b

unfoldable pub files_ok : List Text → List Shard → Bool
files_ok [] [] = true
files_ok (b ∷ bs) (s ∷ ss) = ascends s && (in_range b (next bs) s && files_ok bs ss)
files_ok _ _ = false

unfoldable pub index_ok : List Text → List Shard → Bool
unfolding sorted files_ok ascends in_range
index_ok bounds shards = sorted bounds && files_ok bounds shards
