-- ===== src/Outline/Tests.antt =====
-- docs/navtree.js, `initPageToc`: the outline of concrete pages.
use async_fw.Base.{ℕ, ◌≡◌, refl, List, [], ◌∷◌}
use async_fw.Base.Text.{codes}
use async_fw.Outline.{Heading, page_outline}
use async_fw.Outline.Order.{lines_after, page_outline-lines_after}

abbrev heading : ℕ → Heading
heading level = record { level = level; text = []; id = codes "a" }

abbrev page : List Heading
page = heading 2 ∷ heading 4 ∷ heading 3 ∷ heading 1 ∷ heading 3 ∷ []

-- A level that is left out adds no padding.
paddings :
    page_outline page
    ≡ record { heading = heading 2; padding = 0 }
      ∷ record { heading = heading 4; padding = 16 }
      ∷ record { heading = heading 3; padding = 16 }
      ∷ record { heading = heading 1; padding = 0 }
      ∷ record { heading = heading 3; padding = 16 }
      ∷ []
unfolding page_outline
paddings = refl

page_outline-lines_after_example : page_outline page ≡ lines_after [] page
page_outline-lines_after_example = page_outline-lines_after page
