-- ===== src/NavTree/Goto.antt =====
-- docs/navtree.js, `gotoUrl` and `gotoNode` with their fallbacks, once the index files are loaded.
pub mod Fallback
use async_fw.Base.{ℕ, Bool, Option, none, some, List, [], ◌∷◌, ◌++◌, if◌then◌else◌, ◌==◌, get_elem?}
use async_fw.Base.Text.{Text, text_eq}
use async_fw.NavTree.Index.{Shard, advance, shard_of, place_of}

-- A url before the first page of the index stands for the index page of the site.
abbrev pub root_for : List Text → Text → Text → Text → Text
root_for bounds home root hash = if advance bounds (root ++ hash) == 0 then home else root

-- `navTreeSubIndices[i][root+hash]`
unfoldable pub goto_place : List Text → List Shard → Text → Text → Text → Option (List ℕ)
goto_place bounds shards home root hash =
    place_of (get_elem? shards (shard_of bounds (root ++ hash)))
      (root_for bounds home root hash ++ hash)

-- An anchor that the index does not have is dropped.
abbrev after_place : List Text → List Shard → Text → Text → Text → Option (List ℕ) → Option (List ℕ)
after_place bounds shards home root hash (some p) = some p
after_place bounds shards home root hash none =
    if text_eq hash []
    then none
    else goto_place bounds shards home (root_for bounds home root hash) []

unfoldable pub goto_url : List Text → List Shard → Text → Text → Text → Option (List ℕ)
unfolding goto_place text_eq
goto_url bounds shards home root hash =
    after_place bounds shards home root hash (goto_place bounds shards home root hash)

-- The path from the root; `$.extend(true, [], undefined)` is the empty list.
abbrev pub breadcrumbs : Option (List ℕ) → List ℕ
breadcrumbs none = 0 ∷ []
breadcrumbs (some p) = 0 ∷ p
