-- ===== src/Outline/Groups.antt =====
-- docs/navtree.js, `initPageToc`: the outline of a page of groups of members, such as a class.
pub mod Rows
pub mod Names
mod Tests
use async_fw.Base.{
  ℕ, suc, ◌+◌, ◌-◌, ◌*◌, Bool, true, false, ◌&&◌, ◌||◌, not, Option, none, some, List, [], ◌∷◌,
  ◌++◌, map, if◌then◌else◌, ◌==◌, leb, length, take, drop, any,
}
use async_fw.Base.Text.{Text, codes, text_eq, last_index_of, starts_with}
use async_fw.Base.Spaces.{drop_spaces}
use async_fw.NavTree.Paths.{strip_path, split_hash}
use async_fw.Outline.Escape.{escape_html}
use async_fw.Outline.{Heading, Line, page_outline}

-- A row `tr`: its id, whether it has the class `groupHeader`, and whether it is visible.
pub record Row : Type 0 where
  pub id : Option Text
  pub group_header : Bool
  pub visible : Bool

-- A cell of `rows`: whether it is visible, whether its own text is "{", the text of its first child,
-- whether its row has the class `template`, its row and the row before.
pub record Cell : Type 0 where
  pub visible : Bool
  pub is_anon_enum : Bool
  pub text : Text
  pub template : Bool
  pub tr : Row
  pub prev : Row

-- A heading of a member's documentation: the address of its permalink, and its text but the link's.
pub record MemTitle : Type 0 where
  pub href : Option Text
  pub text : Text

-- A heading of a group: its id as it is put in a text, its title, and the cells of its table.
pub record GroupHeader : Type 0 where
  pub id : Text
  pub title : Text
  pub rows : List Cell

pub data PageHeading : Type 0 where
  groupheader : GroupHeader → PageHeading
  memtitle : MemTitle → PageHeading

pub record Group : Type 0 where
  pub header : GroupHeader
  pub mem_titles : List MemTitle

-- A title goes to the last group, and one before every group is left out.
push_title : MemTitle → List Group → List Group
push_title m [] = []
push_title m (g ∷ []) = record g { mem_titles = g.mem_titles ++ m ∷ [] } ∷ []
push_title m (g ∷ h ∷ gs) = g ∷ push_title m (h ∷ gs)

push_heading : PageHeading → List Group → List Group
unfolding push_title
push_heading (groupheader h) gs = gs ++ record { header = h; mem_titles = [] } ∷ []
push_heading (memtitle m) gs = push_title m gs

push_headings : List PageHeading → List Group → List Group
unfolding push_heading
push_headings [] gs = gs
push_headings (p ∷ ps) gs = push_headings ps (push_heading p gs)

unfoldable pub group_sections : List PageHeading → List Group
unfolding push_headings
group_sections ps = push_headings ps []

-- An entry: its id without "nav-", its html, the padding in pixels, and whether it has an arrow.
pub record Item : Type 0 where
  pub id : Text
  pub html : Text
  pub padding : ℕ
  pub arrow : Bool

-- `ulStack.length`, `inMemberGroup` and `last_id`.
pub record RowState : Type 0 where
  pub depth : ℕ
  pub in_member_group : Bool
  pub last_id : Option Text

abbrev pub row_of : Cell → Row
row_of c = if c.template then c.prev else c.tr

abbrev pub same_id : Option Text → Text → Bool
same_id none id = false
same_id (some t) id = text_eq t id

-- The depth at which a row is put: a header ends the member group before it.
abbrev pub depth_for : Bool → RowState → ℕ
depth_for header s = if header && s.in_member_group then s.depth - 1 else s.depth

abbrev pub row_text : Cell → Text
row_text c = if c.is_anon_enum then codes "anonymous enum" else c.text

abbrev pub row_item : Cell → Text → ℕ → Bool → Item
row_item c id depth header = record {
  id = id;
  html = escape_html (row_text c);
  padding = depth * 16;
  arrow = header;
}

-- The state after a row is put.
abbrev pub row_after : Text → ℕ → Bool → Bool → RowState
row_after id depth header inside = record {
  depth = if header then suc depth else depth;
  in_member_group = header || inside;
  last_id = some id;
}

-- A row is put if it is visible, has an id, and the row before did not have the same.
abbrev pub puts : Option Text → (visible : Bool) → Option Text → Bool
puts last visible none = false
puts last visible (some id) = visible && not (same_id last id)

abbrev pub or_none : Option Text → Text
or_none none = []
or_none (some t) = t

unfoldable pub row_items : List Cell → RowState → List Item × RowState
unfolding text_eq escape_html
row_items [] s = ([], s)
row_items (c ∷ cs) s =
    let tr = row_of c in
    let id = or_none tr.id in
    let depth = depth_for tr.group_header s in
    let (put, after) = row_items cs (row_after id depth tr.group_header s.in_member_group) in
    let skipped = row_items cs s in
    if puts s.last_id tr.visible tr.id
    then (row_item c id depth tr.group_header ∷ put, after)
    else skipped

-- `/\(\)(\s*\[\d+\/\d+\])?$/`: "()" at the end, or "()" and a place among overloads.
drop_digits : Text → Text
drop_digits [] = []
drop_digits (c ∷ t) = if leb b'0' c && leb c b'9' then drop_digits t else c ∷ t

is_last_bracket : Text → Bool
is_last_bracket (c ∷ []) = c == b']'
is_last_bracket _ = false

some_digits : Text → Option Text
unfolding drop_digits
some_digits [] = none
some_digits (c ∷ t) = if leb b'0' c && leb c b'9' then some (drop_digits t) else none

abbrev after_total : Option Text → Bool
after_total none = false
after_total (some t) = is_last_bracket t

abbrev after_place : Option Text → Bool
after_place none = false
after_place (some []) = false
after_place (some (c ∷ t)) = c == b'/' && after_total (some_digits t)

is_overload : Text → Bool
unfolding some_digits is_last_bracket
is_overload [] = false
is_overload (c ∷ t) = c == b'[' && after_place (some_digits t)

abbrev is_call_end : Text → Bool
is_call_end (a ∷ b ∷ t) = a == b'(' && (b == b')' && (text_eq t [] || is_overload (drop_spaces t)))
is_call_end _ = false

unfoldable pub member_name : Text → Text
unfolding is_overload drop_spaces text_eq
member_name [] = []
member_name (c ∷ t) = let rest = member_name t in if is_call_end (c ∷ t) then [] else c ∷ rest

abbrev pub title_item : Option Text → Text → ℕ → List Item
title_item none text depth = []
title_item (some href) text depth =
    record {
      id = drop 1 href;
      html = escape_html (member_name text);
      padding = depth * 16;
      arrow = false;
    }
    ∷ []

unfoldable pub title_items : ℕ → List MemTitle → List Item
unfolding member_name escape_html
title_items depth [] = []
title_items depth (m ∷ ms) = title_item m.href m.text depth ++ title_items depth ms

abbrev pub has_sub_items : Group → Bool
has_sub_items g = leb 1 (length g.mem_titles) || any (λ c. c.visible) g.header.rows

abbrev pub group_start : RowState
group_start = record { depth = 1; in_member_group = false; last_id = none }

-- The entries of a group; the title is appended as html.
unfoldable pub group_items : Group → List Item
unfolding row_items title_items
group_items g =
    let (rows, after) = row_items g.header.rows group_start in
    record { id = g.header.id; html = g.header.title; padding = 0; arrow = has_sub_items g }
    ∷ (if has_sub_items g then rows ++ title_items after.depth g.mem_titles else [])

unfoldable pub groups_items : List Group → List Item
unfolding group_items
groups_items [] = []
groups_items (g ∷ gs) = group_items g ++ groups_items gs

abbrev ids : List Line → List Text
ids [] = []
ids (l ∷ ls) = l.heading.id ∷ ids ls

-- `topMapping`: the headings of the text count on a page with no groups only.
unfoldable pub top_mapping : List PageHeading → List Heading → List Text
unfolding group_sections groups_items page_outline
top_mapping ps hs = elim (group_sections ps) [
  | [] ↦ ids (page_outline hs)
  | g ∷ gs ↦ map (λ (i : Item). i.id) (groups_items (g ∷ gs))
]
