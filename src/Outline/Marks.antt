-- ===== src/Outline/Marks.antt =====
-- docs/navtree.js, `updateContentTop`: the entries of the outline that are marked as in view, and how
-- the panel of the outline follows. Positions are whole pixels.
pub mod Run
use async_fw.Base.{
  ℕ, suc, ◌+◌, ◌*◌, Bool, true, false, ◌&&◌, ◌||◌, not, Option, none, some, List, [], ◌∷◌, ◌++◌,
  map, if◌then◌else◌,
}
use async_fw.Base.Int.{ℤ, pos, negsuc, ◌+ℤ◌, ◌-ℤ◌, ltb_ℤ}
use async_fw.Base.Text.{Text, codes, text_eq}

-- What is measured of an id of `topMapping`: the top of its heading and of the heading's parent,
-- whether that is a `doxsection`, and the top of its entry in the outline.
pub record Measure : Type 0 where
  pub id : Text
  pub in_section : Bool
  pub top : ℤ
  pub parent_top : ℤ
  pub nav_top : ℤ

abbrev pub offset : ℤ → Measure → ℤ
offset yc m = (if m.in_section then m.parent_top else m.top) -ℤ yc

-- `1e10`
abbrev pub past_end : ℤ
past_end = pos 10000000000

abbrev pub margin : ℤ
margin = pos 10

-- From `ys` to `ye` the part of a heading, in a content of this height.
unfoldable pub in_view : (height ys ye : ℤ) → Bool
unfolding ◌-ℤ◌
in_view height ys ye =
    (ltb_ℤ margin ys || ltb_ℤ margin ye)
    && (ltb_ℤ ys (height -ℤ margin) || ltb_ℤ ye (height -ℤ margin))

-- Whether each entry is marked `vis`.
abbrev pub next_offset : List ℤ → ℤ
next_offset [] = past_end
next_offset (y ∷ ys) = y

unfoldable pub marks : ℤ → List ℤ → List Bool
unfolding in_view
marks height [] = []
marks height (y ∷ ys) = in_view height y (next_offset ys) ∷ marks height ys

-- The first entry that is marked, and how many are.
abbrev pub first_marked : List Bool → List Measure → Option Measure
first_marked (b ∷ bs) (m ∷ ms) = let rest = first_marked bs ms in if b then some m else rest
first_marked _ _ = none

abbrev pub count_marked : List Bool → ℕ
count_marked [] = 0
count_marked (b ∷ bs) = let rest = count_marked bs in if b then suc rest else rest

-- `lastScrollSourceOffset`, `lastScrollTargetOffset` and `lastScrollTargetId`, and where the panel
-- was last scrolled to. Offsets of the panel are doubled, since they can end in a half.
pub record Scroll : Type 0 where
  pub last_source : ℤ
  pub last_target : ℤ
  pub last_id : Text
  pub scrolled_to : Option ℤ

abbrev pub new_scroll : Scroll
new_scroll = record {
  last_source = negsuc 0;
  last_target = negsuc 1;
  last_id = [];
  scrolled_to = none;
}

-- Twice `targetOffset`; `list_top` is the top of `ul.page-outline`.
abbrev target_offset : (height list_top : ℤ) → ℕ → Measure → ℤ
target_offset height list_top n m =
    let target_pos = m.nav_top -ℤ list_top in target_pos +ℤ target_pos +ℤ (pos (22 * n) -ℤ height)

abbrev scroll_to : (down : Bool) → ℤ → Text → Scroll → Scroll
scroll_to down target id s =
    if (down && ltb_ℤ s.last_target target) || (not down && ltb_ℤ target s.last_target)
    then record s { last_target = target; last_id = id; scrolled_to = some target }
    else record s { last_id = id }

abbrev follow : (height list_top source : ℤ) → ℕ → Option Measure → Scroll → Scroll
follow height list_top source n none s = s
follow height list_top source n (some m) s =
    if text_eq s.last_id (codes "nav-" ++ m.id)
    then s
    else scroll_to (ltb_ℤ source s.last_source) (target_offset height list_top n m)
        (codes "nav-" ++ m.id) s

-- `panel` tells whether the page has `page-nav-contents`. `yc` is the top of the content, and
-- `source` that of `div.contents`.
unfoldable pub update_content_top :
    (panel : Bool) → (height yc list_top source : ℤ) → List Measure → Scroll → List Bool × Scroll
unfolding marks text_eq ◌+ℤ◌ ◌-ℤ◌
update_content_top false height yc list_top source ms s = ([], s)
update_content_top true height yc list_top source ms s =
    let bs = marks height (map (offset yc) ms) in
    let after = follow height list_top source (count_marked bs) (first_marked bs ms) s in
    (bs, record after { last_source = source })
