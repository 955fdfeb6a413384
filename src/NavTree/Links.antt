-- ===== src/NavTree/Links.antt =====
-- docs/navtree.js, `newNode`: the link of an item, and the class by which an address finds it.
pub mod Find
use async_fw.Base.{
  ℕ, Bool, true, false, not, Option, none, some, List, [], ◌∷◌, ◌++◌, if◌then◌else◌, ◌==◌, drop,
}
use async_fw.Base.Text.{Text, codes, text_eq, last_index_of}
use async_fw.NavTree.Paths.{strip_path, replace_first, split_hash, path_name, hash_value}
use async_fw.NavTree.Session.{Page}

-- The class and the `href` of an item's link. What a click does besides: it stores a link and, where
-- there is a fragment, selects the item and goes to the anchor; or it folds and unfolds the item.
pub data ItemLink : Type 0 where
  page_item : (cls href stored : Text) → ItemLink
  anchor_item : (cls href stored anchor : Text) → ItemLink
  toggle_item : ItemLink
  label_item : ItemLink

abbrev pub or_empty : Option Text → Text
or_empty none = []
or_empty (some t) = t

-- `stripPath(link.replace('#',':'))`
unfoldable pub link_class : Text → Text
unfolding strip_path replace_first
link_class link = strip_path (replace_first b'#' b':' link)

unfoldable pub link_with : (path link url : Text) → Text × Option Text → ItemLink
unfolding link_class strip_path path_name text_eq
link_with path link url (first, none) = page_item (link_class link) url link
link_with path link url (first, some name) =
    anchor_item (link_class link)
      (if text_eq (strip_path (path_name path)) (strip_path first) then b'#' ∷ name else url) link
      (b'#' ∷ name)

-- A link with `url` its address and the page itself at `path`.
unfoldable pub link_at : (path link url : Text) → ItemLink
unfolding link_with split_hash
link_at path link url = link_with path link url (split_hash link)

-- A link that starts with "^" leads out of the site.
abbrev pub link_of : (relpath path link : Text) → ItemLink
link_of relpath path [] = label_item
link_of relpath path (c ∷ t) =
    if c == b'^' then link_at path t t else link_at path (c ∷ t) (relpath ++ c ∷ t)

-- `link` may be null or empty, and then an item with `childrenData` folds on a click.
unfoldable pub item_link : (relpath path : Text) → Option Text → (has_children : Bool) → ItemLink
unfolding link_at
item_link relpath path none kids = if kids then toggle_item else label_item
item_link relpath path (some []) kids = if kids then toggle_item else label_item
item_link relpath path (some (c ∷ t)) kids = link_of relpath path (c ∷ t)

-- `stripPath(pathName())+':'+hashValue()`
unfoldable pub address_class : Page → Text
unfolding strip_path path_name hash_value
address_class p = strip_path (path_name p.path) ++ b':' ∷ hash_value p.hash
