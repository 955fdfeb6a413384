-- ===== src/Outline/AllMembers/Page.antt =====
-- docs/navtree.js, `initPageToc`: where the link to all members of a class leads.
use async_fw.Base.{
  ℕ, suc, ◌≡◌, refl, ap, ◌∙◌, false, Option, none, some, [], ◌∷◌, ◌++◌, ◌==◌, length, drop,
  take-append, drop-append, append-nil,
}
use async_fw.Base.Text.{Text, codes, Free, Free-append}
use async_fw.NavTree.Paths.{split_hash}
use async_fw.NavTree.Paths.Laws.{strip_path-append, last_index_of-append}
use async_fw.NavTree.Paths.Cut.{split_hash-Free, split_hash-append}
use async_fw.Outline.AllMembers.{has_char, members_at, add_members, members_page, all_members_href}

-- The fragment of an address, if it has one.
abbrev pub with_fragment : Option Text → Text
with_fragment none = []
with_fragment (some t) = b'#' ∷ t

abbrev pub FreeFragment : ℕ → Option Text → Type 0
FreeFragment c none = Unit
FreeFragment c (some t) = Free c t

split_hash-with_fragment :
    (s : Text) (o : Option Text)
    → Free b'#' s
    → FreeFragment b'#' o
    → (split_hash (s ++ with_fragment o)).0 ≡ s
split_hash-with_fragment s none f g = rw (append-nil s, split_hash-Free s f) refl
split_hash-with_fragment s (some t) f g = rw (split_hash-append s t f g) refl

Free-with_fragment :
    (c : ℕ) (o : Option Text) → (b'#' == c) ≡ false → FreeFragment c o → Free c (with_fragment o)
Free-with_fragment c none ne f = tt
Free-with_fragment c (some t) ne f = (ne, f)

has_char-Free : (c : ℕ) (t : Text) → Free c t → has_char c t ≡ false
has_char-Free c [] f = refl
has_char-Free c (x ∷ t) f = rw (f.0, has_char-Free c t f.1) refl

module _ (stem : Text) (e : ℕ) (ext : Text) (dots : Free b'.' (e ∷ ext))
    (slash : Free b'/' (e ∷ ext)) where
  drop_stem : (s t : Text) → drop (suc (length s)) (s ++ b'.' ∷ t) ≡ t
  drop_stem [] t = refl
  drop_stem (x ∷ s) t = drop_stem s t

  add_members-append :
      add_members (stem ++ b'.' ∷ e ∷ ext) ≡ stem ++ codes "-members" ++ b'.' ∷ e ∷ ext
  unfolding add_members
  add_members-append = rw (last_index_of-append b'.' stem (e ∷ ext) dots) members
    where
      members :
          members_at (some (length stem)) (stem ++ b'.' ∷ e ∷ ext)
          ≡ stem ++ codes "-members" ++ b'.' ∷ e ∷ ext
      members =
          rw
            (
              drop_stem stem (e ∷ ext),
              slash.0,
              has_char-Free b'/' ext slash.1,
              take-append stem (b'.' ∷ e ∷ ext),
              drop-append stem (b'.' ∷ e ∷ ext),
            )
            refl

  -- On a site with no folders, from the page of a class the entry leads to the page of that name with
  -- "-members" before its extension, whatever the address and its fragment.
  pub all_members_href-page :
      (c : ℕ) (file dir : Text) (fragment : Option Text)
      → Free b'/' stem
      → Free b'#' (stem ++ b'.' ∷ e ∷ ext)
      → FreeFragment b'/' fragment
      → FreeFragment b'#' fragment
      → all_members_href []
          (c ∷ file)
          (dir ++ b'/' ∷ ((stem ++ b'.' ∷ e ∷ ext) ++ with_fragment fragment))
        ≡ some (stem ++ codes "-members" ++ b'.' ∷ e ∷ ext)
  unfolding all_members_href members_page
  all_members_href-page c file dir fragment sf hf ff fh =
      let page = stem ++ b'.' ∷ e ∷ ext in
      let page_slash = Free-append b'/' stem (b'.' ∷ e ∷ ext) sf (refl, slash) in
      let stripped = strip_path-append dir (page ++ with_fragment fragment) (
        Free-append b'/' page (with_fragment fragment) page_slash
          (Free-with_fragment b'/' fragment refl ff)) in
      ap (λ t. some (add_members (split_hash t).0)) stripped
      ∙ ap (λ t. some (add_members t)) (split_hash-with_fragment page fragment hf fh)
      ∙ ap some add_members-append
