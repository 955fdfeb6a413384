-- ===== src/Outline.antt =====
-- docs/navtree.js, `initPageToc`: the outline of a page, from the headings of its text.
pub mod Order
pub mod Escape
pub mod Groups
pub mod AllMembers
pub mod Marks
mod Tests
use async_fw.Base.{ℕ, zero, suc, ◌+◌, ◌*◌, Bool, List, [], ◌∷◌, ◌++◌, if◌then◌else◌, leb, length}
use async_fw.Base.Text.{Text}

-- A heading `h1` to `h6` with its anchor.
pub record Heading : Type 0 where
  pub level : ℕ
  pub text : Text
  pub id : Text

-- `sectionTree`: a heading, its `children` and the nodes after it.
pub data Outline : Type 0 where
  nothing : Outline
  section : Heading → Outline → Outline → Outline

-- The loop that pops `sectionStack`, of which the levels are kept, the top first.
unfoldable pub pop_sections : ℕ → List ℕ → List ℕ
pop_sections level [] = []
pop_sections level (top ∷ stack) =
    let rest = pop_sections level stack in if leb level top then rest else top ∷ stack

-- The stack shares its `children` with the nodes along the right edge of the tree, so that a node
-- is pushed to the last node of that depth; with no such node nothing is pushed.
unfoldable pub push_section : ℕ → Heading → Outline → Outline
push_section zero h nothing = section h nothing nothing
push_section zero h (section g c r) = section g c (push_section zero h r)
push_section (suc d) h nothing = nothing
push_section (suc d) h (section g c nothing) = section g (push_section d h c) nothing
push_section (suc d) h (section g c (section k c' r)) =
    section g c (push_section (suc d) h (section k c' r))

pub record Sections : Type 0 where
  pub tree : Outline
  pub stack : List ℕ

unfoldable pub add_heading : Heading → Sections → Sections
unfolding push_section pop_sections
add_heading h s =
    let stack = pop_sections h.level s.stack in
    record { tree = push_section (length stack) h s.tree; stack = h.level ∷ stack }

unfoldable pub add_headings : List Heading → Sections → Sections
unfolding add_heading
add_headings [] s = s
add_headings (h ∷ hs) s = add_headings hs (add_heading h s)

abbrev pub no_sections : Sections
no_sections = record { tree = nothing; stack = [] }

-- An entry of the outline: its heading and the padding in pixels.
pub record Line : Type 0 where
  pub heading : Heading
  pub padding : ℕ

-- `render`: the entries in the order in which they are appended to the outline and to `topMapping`.
unfoldable pub render : ℕ → Outline → List Line
render level nothing = []
render level (section h c r) =
    record { heading = h; padding = level * 16 } ∷ (render (level + 1) c ++ render level r)

unfoldable pub page_outline : List Heading → List Line
unfolding add_headings render
page_outline hs = render 0 (add_headings hs no_sections).tree
