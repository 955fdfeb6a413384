-- ===== src/Outline/AllMembers.antt =====
-- docs/navtree.js, `initPageToc`: the entry that links to the page of all members of a class.
pub mod Page
use async_fw.Base.{
  ℕ, suc, ◌+◌, ◌≡◌, refl, ap, ◌∙◌, Bool, true, false, ◌&&◌, ◌||◌, not, Option, none, some, List, [],
  ◌∷◌, ◌++◌, if◌then◌else◌, ◌==◌, length, take, drop, any, arith, take-append, drop-append,
  append_assoc,
}
use async_fw.Base.Text.{Text, codes, last_index_of, Free}
use async_fw.NavTree.Paths.{strip_path, split_hash}
use async_fw.NavTree.Paths.Laws.{strip_path-append, last_index_of-append}
use async_fw.NavTree.Paths.Cut.{split_hash-Free, split_hash-append}

-- `t.substring(0, t.lastIndexOf('/'))`, which is empty if there is no "/".
abbrev take_to : Option ℕ → Text → Text
take_to none t = []
take_to (some i) t = take i t

folder : Text → Text
unfolding last_index_of
folder t = take_to (last_index_of b'/' t) t

abbrev has_char : ℕ → Text → Bool
has_char c t = any (λ x. x == c) t

abbrev is_extension : Text → Bool
is_extension [] = false
is_extension (c ∷ t) = not (has_char b'/' (c ∷ t))

abbrev members_at : Option ℕ → Text → Text
members_at none t = t
members_at (some i) t =
    if is_extension (drop (suc i) t) then take i t ++ codes "-members" ++ drop i t else t

-- `replace(/(\.[^/.]+)$/, '-members$1')`
add_members : Text → Text
unfolding last_index_of
add_members t = members_at (last_index_of b'.' t) t

-- `url.split('/').pop().split('#')[0]` with its `-members`.
unfoldable pub members_page : Text → Text
unfolding strip_path split_hash add_members
members_page url = add_members (split_hash (strip_path url)).0

-- The `href`, if the page has such an entry.
unfoldable pub all_members_href : (relpath all_members_file url : Text) → Option Text
unfolding folder members_page
all_members_href relpath [] url = none
all_members_href [] (c ∷ file) url = some (members_page url)
all_members_href (r ∷ relpath) (c ∷ file) url = some (
    folder url
    ++ codes "/"
    ++ (r ∷ relpath)
    ++ (folder (c ∷ file) ++ codes "/")
    ++ members_page url)
