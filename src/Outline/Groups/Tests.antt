-- ===== src/Outline/Groups/Tests.antt =====
-- docs/navtree.js, `initPageToc`: the outline of a class, and what is in view of it.
use async_fw.Base.{
  ◌≡◌, refl, Bool, true, false, some, none, map, List, [], ◌∷◌, ◌++◌, all, any, arith,
}
use async_fw.Base.Int.{ℤ, pos, negsuc, ◌-ℤ◌}
use async_fw.Base.Spaces.{is_space, drop_spaces}
use async_fw.Base.Text.{Text, codes, text_eq, Free-of_all}
use async_fw.Outline.AllMembers.{all_members_href}
use async_fw.Outline.AllMembers.Page.{with_fragment, all_members_href-page}
use async_fw.Outline.Escape.{escape_html, Shows, is_plain, escape_html-Shows}
use async_fw.Outline.Groups.{
  Row, Cell, Group, Item, groupheader, memtitle, group_sections, group_start, row_items,
  member_name, group_items, groups_items,
}
use async_fw.Outline.Groups.Names.{overload, member_name-append}
use async_fw.Outline.Groups.Rows.{
  squeeze, visible_ids, row_items-visible_ids, IsNested, groups_items-IsNested,
}
use async_fw.Outline.Marks.{Measure, offset, Scroll, new_scroll, update_content_top}
use async_fw.Outline.Marks.Run.{is_run, overlaps, update_content_top-is_run}

abbrev entry_row : Text → Bool → Row
entry_row id header = record { id = some id; group_header = header; visible = true }

abbrev blank_row : Row
blank_row = record { id = none; group_header = false; visible = true }

abbrev cell : Text → Text → Bool → Cell
cell id t header = record {
  visible = true;
  is_anon_enum = false;
  text = t;
  template = false;
  tr = entry_row id header;
  prev = blank_row;
}

-- A member, a group of members with its two cells, and a template, whose row is the one before.
abbrev cells : List Cell
cells =
    cell (codes "a1") (codes "size") false
    ∷ cell (codes "a1") (codes "size") false
    ∷ cell (codes "m1") (codes "Values") true
    ∷ record (cell (codes "x") (codes "a < b") false) {
      template = true;
      prev = entry_row (codes "a2") false;
    }
    ∷ record (cell (codes "a3") (codes "gone") false) {
      tr = record { id = some (codes "a3"); group_header = false; visible = false };
    }
    ∷ []

abbrev members : Group
members = record {
  header = record { id = codes "members"; title = codes "Members"; rows = cells };
  mem_titles = record { href = some (codes "#a4"); text = codes "run() [1/2]" } ∷ [];
}

entries_of_members :
    group_items members
    ≡ record { id = codes "members"; html = codes "Members"; padding = 0; arrow = true }
      ∷ record { id = codes "a1"; html = codes "size"; padding = 16; arrow = false }
      ∷ record { id = codes "m1"; html = codes "Values"; padding = 16; arrow = true }
      ∷ record { id = codes "a2"; html = codes "a &lt; b"; padding = 32; arrow = false }
      ∷ record { id = codes "a4"; html = codes "run"; padding = 32; arrow = false }
      ∷ []
unfolding group_items escape_html text_eq drop_spaces is_space
entries_of_members = refl

title_before_every_group :
    group_sections (memtitle (record { href = none; text = [] }) ∷ groupheader members.header ∷ [])
    ≡ record { header = members.header; mem_titles = [] } ∷ []
unfolding group_sections
title_before_every_group = refl

row_items-visible_ids_example :
    map (λ (i : Item). i.id) (row_items cells group_start).0 ≡ squeeze none (visible_ids cells)
row_items-visible_ids_example = row_items-visible_ids cells group_start

groups_items-IsNested_example : IsNested 0 (groups_items (members ∷ []))
groups_items-IsNested_example = groups_items-IsNested (members ∷ []) 0

member_name-append_example :
    (member_name (codes "run") ≡ codes "run")
    × (member_name (codes "run" ++ codes "()") ≡ codes "run")
    × (member_name (codes "run" ++ overload (codes "2") (codes "12")) ≡ codes "run")
member_name-append_example =
    member_name-append (codes "run") (codes "2") (codes "12") (Free-of_all b'(' (codes "run") refl)
      refl refl

escape_html-Shows_example :
    Shows (escape_html (codes "a<b&c")) (codes "a<b&c")
    × (all is_plain (escape_html (codes "a<b&c")) ≡ true)
escape_html-Shows_example = escape_html-Shows (codes "a<b&c")

all_members_href-page_example :
    all_members_href [] (codes "classTimer-members") (
      codes "https://host/docs"
      ++ b'/' ∷ ((codes "classTimer" ++ codes ".html") ++ with_fragment (some (codes "a1"))))
    ≡ some (codes "classTimer" ++ codes "-members" ++ codes ".html")
all_members_href-page_example =
    all_members_href-page (codes "classTimer") b'h' (codes "tml")
      (Free-of_all b'.' (codes "html") refl) (Free-of_all b'/' (codes "html") refl) b'c'
      (codes "lassTimer-members") (codes "https://host/docs") (some (codes "a1"))
      (Free-of_all b'/' (codes "classTimer") refl) (Free-of_all b'#' (codes "classTimer.html") refl)
      (Free-of_all b'/' (codes "a1") refl) (Free-of_all b'#' (codes "a1") refl)

abbrev measure : Text → ℤ → Measure
measure id y = record { id = id; in_section = false; top = y; parent_top = y; nav_top = y }

abbrev measures : List Measure
measures = measure (codes "b") (pos 150) ∷ measure (codes "c") (pos 2000) ∷ []

abbrev scrolled : Scroll
scrolled =
    (update_content_top true (pos 600) (pos 100) (pos 0) (negsuc 49)
      (measure (codes "a") (pos 0) ∷ measures) new_scroll).1

-- The part of heading b is in view although the heading is not; the panel goes to its middle.
heading_in_view :
    (update_content_top true
      (pos 600)
      (pos 100)
      (pos 0)
      (negsuc 49)
      (measure (codes "a") (pos 0) ∷ measures)
      new_scroll).0
    ≡ true ∷ true ∷ false ∷ []
unfolding update_content_top
heading_in_view = refl

panel_follows : scrolled.last_id ≡ codes "nav-a"
unfolding update_content_top
panel_follows = refl

update_content_top-is_run_example :
    ((update_content_top true
        (pos 600)
        (pos 100)
        (pos 0)
        (pos 5)
        (measure (codes "a") (pos 0) ∷ measures)
        new_scroll).0
      ≡ overlaps (pos 600) (map (offset (pos 100)) (measure (codes "a") (pos 0) ∷ measures)))
    × (is_run
          (update_content_top true
            (pos 600)
            (pos 100)
            (pos 0)
            (pos 5)
            (measure (codes "a") (pos 0) ∷ measures)
            new_scroll).0
        ≡ true)
    × (any
          (λ b. b)
          (update_content_top true
            (pos 600)
            (pos 100)
            (pos 0)
            (pos 5)
            (measure (codes "a") (pos 0) ∷ measures)
            new_scroll).0
        ≡ true)
unfolding ◌-ℤ◌
update_content_top-is_run_example =
    update_content_top-is_run (pos 600) (pos 100) (pos 0) (pos 5) (measure (codes "a") (pos 0))
      measures new_scroll (omega arith, (omega arith, (omega arith, tt))) refl refl
