-- ===== src/NavTree/Walk.antt =====
-- Where a place of the index leads in the tree of docs/navtreedata.js, with every script loaded
-- that the tree names on the way.
pub mod SiteIndex
use Prim.Native.String.{String}
use text.Mathlib.Text.{◌==◌ as str_eq}
use async_fw.Base.{
  ℕ, zero, suc, Bool, true, false, Option, none, some, List, [], ◌∷◌, ◌&&◌, ◌||◌, if◌then◌else◌,
  map, length, ◌++◌, all, drop, ◌-◌,
}
use async_fw.Base.Text.{Text, codes, text_eq, starts_with}
use async_fw.NavTree.Entries.{Entry, entry, Children, leaf, script, items, Entries, end, ◌⨾◌}
use async_fw.NavTree.Site.{site_scripts, site_shards, navtree, navtreeindex}
use async_fw.NavTree.Index.{Shard}

unfoldable pub nth : Entries → ℕ → Option Entry
nth end i = none
nth (e ⨾ es) zero = some e
nth (e ⨾ es) (suc i) = nth es i

-- `window[e]` after the script of that name has run.
unfoldable pub find_script : List (String × Entries) → String → Entries
find_script [] name = end
find_script ((k, es) ∷ m) name = if str_eq k name then es else find_script m name

unfoldable pub loaded : List (String × Entries) → Children → Entries
unfolding find_script
loaded m leaf = end
loaded m (script name) = find_script m name
loaded m (items es) = es

abbrev pub children : Entry → Children
children (entry t l c) = c

abbrev pub link_of : Entry → Option String
link_of (entry t l c) = l

unfoldable pub walk : List (String × Entries) → Entry → List ℕ → Option Entry
unfolding nth loaded
walk m e [] = some e
walk m e (i ∷ is) = elim (nth (loaded m (children e)) i) [ none ↦ none | some c ↦ walk m c is ]

-- The index gives the page of a header's source text the place of the header's page.
unfoldable pub drop_source : Text → Text
unfolding starts_with
drop_source [] = []
drop_source (c ∷ t) =
    let rest = drop_source t in
    if starts_with (codes "_source.html") (c ∷ t) then codes ".html" else c ∷ rest

abbrev leads_to : Text → Option Entry → Bool
leads_to key none = false
leads_to key (some (entry t none c)) = false
leads_to key (some (entry t (some l) c)) =
    text_eq (codes l) key || text_eq (codes l) (drop_source key)

-- The root's page also stands under the name of the list of pages.
unfoldable pub place_ok : List (String × Entries) → Entry → (String × List ℕ) → Bool
unfolding walk drop_source text_eq
place_ok m root (key, []) = str_eq key "index.html" || str_eq key "pages.html"
place_ok m root (key, i ∷ is) = leads_to (codes key) (walk m root (0 ∷ i ∷ is))

-- `o.node`, above the one entry of `NAVTREE`.
unfoldable pub site_root : Entry
site_root = entry "" none (items navtree)

unfoldable pub site_bounds : List Text
unfolding navtreeindex
site_bounds = map codes navtreeindex

abbrev pub texts : List (String × List ℕ) → Shard
texts [] = []
texts ((k, p) ∷ s) = (codes k, p) ∷ texts s

unfoldable pub site_index : List Shard
unfolding site_shards
site_index = map texts site_shards
