-- ===== src/NavTree/Tests.antt =====
-- docs/navtree.js: addresses and pages of the site.
use async_fw.Base.{List, ◌≡◌, refl, ◌⊎◌, true, false, some, [], ◌∷◌, arith}
use async_fw.Base.Text.{Text, codes, text_eq, last_index_of, substring, text_leb}
use async_fw.NavTree.Site.{navtree, site_scripts, site_shards, shard_1}
use async_fw.NavTree.Paths.{strip_path2, hash_url, split_hash}
use async_fw.NavTree.Index.{Shard, index_ok, locate}
use async_fw.NavTree.Index.Search.{locate-index_ok}
use async_fw.NavTree.Entries.{Entry, entry, leaf}
use async_fw.NavTree.Goto.{goto_url}
use async_fw.NavTree.Goto.Fallback.{goto_url-index_ok}
use async_fw.NavTree.Tree.{new_node, selected, show_node, load_all}
use async_fw.NavTree.Tree.Matches.{Matches, IsShownAt}
use async_fw.NavTree.Tree.Arrow.{click_all, load_all-click_all}
use async_fw.NavTree.Tree.Select.{is_addressed, selected_items, address, ends_with}
use async_fw.NavTree.Links.{link_class}
use mathlib.Core.List.{Mem}
use async_fw.NavTree.Walk.{walk, site_bounds, site_index, site_root, place_ok}
use async_fw.NavTree.Walk.SiteIndex.{site_page_found}

subdir_is_kept : strip_path2 (codes "/doc/d3/d1f/page.html") ≡ codes "d3/d1f/page.html"
unfolding strip_path2 last_index_of substring
subdir_is_kept = refl

folder_is_dropped : strip_path2 (codes "/doc/html/page.html") ≡ codes "page.html"
unfolding strip_path2 last_index_of substring
folder_is_dropped = refl

fragment_is_cleaned : hash_url (codes "#a\"]b-1") ≡ codes "#ab-1"
unfolding hash_url
fragment_is_cleaned = refl

a_link_is_cut_at_its_hash : split_hash (codes "a.html#b#c") ≡ (codes "a.html", some (codes "b"))
unfolding split_hash
a_link_is_cut_at_its_hash = refl

locate-index_ok_example :
    locate
      (codes "a" ∷ codes "m" ∷ [])
      (((codes "a", 0 ∷ []) ∷ []) ∷ ((codes "m", 1 ∷ []) ∷ (codes "n", 2 ∷ []) ∷ []) ∷ [])
      (codes "n")
    ≡ some (2 ∷ [])
unfolding index_ok text_leb
locate-index_ok_example =
    locate-index_ok (codes "a" ∷ codes "m" ∷ [])
      (((codes "a", 0 ∷ []) ∷ []) ∷ ((codes "m", 1 ∷ []) ∷ (codes "n", 2 ∷ []) ∷ []) ∷ []) 1 1
      ((codes "m", 1 ∷ []) ∷ (codes "n", 2 ∷ []) ∷ []) (codes "n") (2 ∷ []) refl refl refl

site_page_found_example :
    (locate site_bounds site_index
        (codes "classAsyncFw_1_1AddressResolver.html#a9a5b78be91762ae5adc7f19aede8a662")
      ≡ some (2 ∷ 0 ∷ 0 ∷ 15 ∷ 0 ∷ []))
    × (place_ok site_scripts site_root (
      "classAsyncFw_1_1AddressResolver.html#a9a5b78be91762ae5adc7f19aede8a662",
      (2 ∷ 0 ∷ 0 ∷ 15 ∷ 0 ∷ []),
    )
        ≡ true)
unfolding site_shards
site_page_found_example =
    site_page_found 1 0 shard_1
      "classAsyncFw_1_1AddressResolver.html#a9a5b78be91762ae5adc7f19aede8a662"
      (2 ∷ 0 ∷ 0 ∷ 15 ∷ 0 ∷ []) refl refl

-- A method of a class, whose page loads a script of its own.
abbrev resolve : Entry
resolve =
    entry "resolve" (some "classAsyncFw_1_1AddressResolver.html#a9a5b78be91762ae5adc7f19aede8a662")
      leaf

abbrev resolver_page : Text
resolver_page = codes "/docs/classAsyncFw_1_1AddressResolver.html"

abbrev resolve_hash : Text
resolve_hash = codes "#a9a5b78be91762ae5adc7f19aede8a662"

root-Matches : Matches site_scripts (new_node site_root) site_root
unfolding Matches site_root
root-Matches = (refl, refl, refl)

-- The address leads to the method.
hash_leads_to_it : is_addressed resolver_page resolve_hash resolve ≡ true
unfolding address ends_with link_class last_index_of
hash_leads_to_it = refl

load_all-click_all_example :
    let s = load_all site_scripts true 7 0 (2 ∷ 0 ∷ 0 ∷ 15 ∷ 0 ∷ []) (
      show_node true 0
        (2 ∷ 0 ∷ 0 ∷ 15 ∷ 0 ∷ [])
        (click_all site_scripts ((0 ∷ []) ∷ [] ∷ (0 ∷ 2 ∷ []) ∷ []) (new_node site_root))) in
    (s.1 ≡ selected (0 ∷ 2 ∷ 0 ∷ 0 ∷ 15 ∷ 0 ∷ []))
    × IsShownAt s.0 0 (2 ∷ 0 ∷ 0 ∷ 15 ∷ 0 ∷ []) resolve
    × Matches site_scripts s.0 site_root
    × ((is_addressed resolver_page resolve_hash resolve ≡ false)
        ⊎ Mem (0 ∷ 2 ∷ 0 ∷ 0 ∷ 15 ∷ 0 ∷ []) (selected_items resolver_page resolve_hash s))
unfolding walk site_root site_scripts navtree
load_all-click_all_example =
    load_all-click_all site_scripts ((0 ∷ []) ∷ [] ∷ (0 ∷ 2 ∷ []) ∷ []) true site_root 0
      (2 ∷ 0 ∷ 0 ∷ 15 ∷ 0 ∷ []) (new_node site_root) resolve 7 resolver_page resolve_hash
      root-Matches refl tt (omega arith)

abbrev small_bounds : List Text
small_bounds = codes "a" ∷ codes "m" ∷ []

abbrev small_file : Shard
small_file = (codes "m", 1 ∷ []) ∷ (codes "m#y", 2 ∷ []) ∷ []

abbrev small_index : List Shard
small_index = ((codes "a", 0 ∷ []) ∷ []) ∷ small_file ∷ []

-- `m#x` is not in the index, so that its place is that of `m`.
goto_url-index_ok_example :
    goto_url small_bounds small_index (codes "a") (codes "m") (codes "#x") ≡ some (1 ∷ [])
unfolding index_ok text_leb text_eq locate
goto_url-index_ok_example =
    goto_url-index_ok small_bounds small_index (codes "a") (codes "m") (codes "#x") 1 0 small_file
      (1 ∷ []) refl refl refl refl
