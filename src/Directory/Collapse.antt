-- ===== src/Directory/Collapse.antt =====
-- docs/dynsections.js, `toggleVisibility` and `toggleInherit`: a section with a summary, and the
-- inherited members of a class.
use async_fw.Base.{Bool, true, false, Option, List, [], ◌∷◌, if◌then◌else◌}
use async_fw.Directory.{mark}

-- The content and the summary of a section, and whether the arrowhead of its link is `opened`.
pub record Collapsible : Type 0 where
  pub content_shown : Bool
  pub summary_shown : Bool
  pub arrowhead : Option Bool

-- What stands once the slide has ended.
unfoldable pub toggle_visibility : Collapsible → Collapsible
toggle_visibility s =
    if s.content_shown
    then record { content_shown = false; summary_shown = true; arrowhead = mark false s.arrowhead }
    else record { content_shown = true; summary_shown = false; arrowhead = mark true s.arrowhead }

-- The rows `tr.inherit` of an id, and the arrowhead of its header.
pub record InheritGroup : Type 0 where
  pub rows_shown : List Bool
  pub header : Option Bool

abbrev pub first_shown : List Bool → Bool
first_shown [] = false
first_shown (b ∷ bs) = b

abbrev pub all_to : Bool → List Bool → List Bool
all_to b [] = []
all_to b (c ∷ cs) = b ∷ all_to b cs

unfoldable pub toggle_inherit : InheritGroup → InheritGroup
toggle_inherit g =
    if first_shown g.rows_shown
    then record { rows_shown = all_to false g.rows_shown; header = mark false g.header }
    else record { rows_shown = all_to true g.rows_shown; header = mark true g.header }
