-- ===== src/NavTree/Links/Find.antt =====
-- docs/navtree.js: the item of a link is found by the address that the link leads to.
use async_fw.Base.{
  ℕ, ◌≡◌, refl, ap, ◌∙◌, Bool, true, false, some, [], ◌∷◌, ◌++◌, if◌then◌else◌, ◌==◌, ◌||◌, all,
  &&_parts, arith,
}
use async_fw.Base.Text.{Text, text_eq, text_eq_refl, Free, Free-append}
use async_fw.NavTree.Paths.{keep, is_word, strip_path, replace_first, path_name, hash_value}
use async_fw.NavTree.Paths.Laws.{last_index_of-Free}
use async_fw.NavTree.Paths.Cut.{split_hash-append, ==_false}
use async_fw.NavTree.Session.{Page}
use async_fw.NavTree.Links.{anchor_item, link_class, link_with, link_at, item_link, address_class}

abbrev is_hash_char : ℕ → Bool
is_hash_char c = is_word c || c == b'-'

replace_first-append :
    (a b : ℕ) (s t : Text) → Free a s → replace_first a b (s ++ a ∷ t) ≡ s ++ b ∷ t
unfolding replace_first
replace_first-append a b [] t f = ground arith
replace_first-append a b (c ∷ s) t f = rw (f.0) (ap (c ∷◌) (replace_first-append a b s t f.1))

strip_path-Free : (t : Text) → Free b'/' t → strip_path t ≡ t
unfolding strip_path
strip_path-Free t f = rw (last_index_of-Free b'/' t f) refl

keep-all : (p : ℕ → Bool) (t : Text) → all p t ≡ true → keep p t ≡ t
unfolding keep
keep-all p [] h = refl
keep-all p (c ∷ t) h = ground (arith, keep-all p t)

Free-hash_chars : (c : ℕ) (t : Text) → is_hash_char c ≡ false → all is_hash_char t ≡ true → Free c t
Free-hash_chars c [] e h = tt
Free-hash_chars c (x ∷ t) e h =
    let (hx, ht) = &&_parts (is_hash_char x) (all is_hash_char t) h in
    (==_false is_hash_char x c e hx, Free-hash_chars c t e ht)

-- A link to a fragment of letters, digits, "_" and "-" on a page.
module _ (page name : Text) (no_slash : Free b'/' page) (no_hash : Free b'#' page)
    (chars : all is_hash_char name ≡ true) where
  link_class-append : link_class (page ++ b'#' ∷ name) ≡ page ++ b':' ∷ name
  unfolding link_class
  link_class-append = rw (replace_first-append b'#' b':' page name no_hash) (
      strip_path-Free _
        (Free-append b'/' page (b':' ∷ name) no_slash (refl, Free-hash_chars b'/' name refl chars)))

  link_at-append :
      (path url : Text)
      → link_at path (page ++ b'#' ∷ name) url
        ≡ anchor_item
            (page ++ b':' ∷ name)
            (if text_eq (strip_path (path_name path)) page then b'#' ∷ name else url)
            (page ++ b'#' ∷ name)
            (b'#' ∷ name)
  unfolding link_at
  link_at-append path url =
      ap (link_with path (page ++ b'#' ∷ name) url)
        (split_hash-append page name no_hash (Free-hash_chars b'#' name refl chars))
      ∙ with_parts
    where
      with_parts :
          link_with path (page ++ b'#' ∷ name) url (page, some name)
          ≡ anchor_item
              (page ++ b':' ∷ name)
              (if text_eq (strip_path (path_name path)) page then b'#' ∷ name else url)
              (page ++ b'#' ∷ name)
              (b'#' ∷ name)
      with_parts = unfold link_with in rw (strip_path-Free page no_slash, link_class-append) refl

-- For a page of the site, whose name does not start with "^".
module _ (c : ℕ) (t name : Text) (no_slash : Free b'/' (c ∷ t)) (no_hash : Free b'#' (c ∷ t))
    (inside : (c == b'^') ≡ false) (chars : all is_hash_char name ≡ true) where
  -- On the page itself the link of an item with a fragment leads to the fragment alone, and its class
  -- is the one that the handlers look for when the address has the page and the fragment.
  pub item_link-address_class :
      (relpath : Text) (p : Page) (kids : Bool)
      → strip_path (path_name p.path) ≡ c ∷ t
      → p.hash ≡ b'#' ∷ name
      → item_link relpath p.path (some (c ∷ t ++ b'#' ∷ name)) kids
        ≡ anchor_item (address_class p) p.hash (c ∷ t ++ b'#' ∷ name) p.hash
  unfolding item_link
  item_link-address_class relpath p kids here hash = rw inside (
      link_at-append (c ∷ t) name no_slash no_hash chars p.path (relpath ++ c ∷ (t ++ b'#' ∷ name))
      ∙ rw (here, text_eq_refl (c ∷ t), class, hash) refl)
    where
      class : address_class p ≡ c ∷ t ++ b':' ∷ name
      class =
          unfold address_class hash_value in rw (here, hash, keep-all is_hash_char name chars) refl
