-- ===== src/Directory.antt =====
-- docs/dynsections.js, `dynsection`: the rows of the directory table, folded and unfolded.
pub mod Fold
pub mod Toggle
pub mod Stripes
pub mod Collapse
mod Tests
use async_fw.Base.{
  ℕ, zero, suc, ◌+◌, Bool, true, false, ◌&&◌, not, Option, none, some, List, [], ◌∷◌, ◌++◌,
  if◌then◌else◌, ◌==◌, ltb, leb,
}
use async_fw.Base.Text.{Text, codes, text_eq, starts_with}

-- A row of the table. `arrow` is whether its arrowhead is `opened`, `folder` whether its icon is
-- `open`, `none` where the row has no such element; `even` and `odd` are its classes.
pub record TableRow : Type 0 where
  pub id : Text
  pub shown : Bool
  pub arrow : Option Bool
  pub folder : Option Bool
  pub even : Bool
  pub odd : Bool

-- The classes of the rows, which alternate over those that are visible.
unfoldable pub stripe_from : Bool → List TableRow → List TableRow
stripe_from e [] = []
stripe_from e (r ∷ rows) =
    record r { even = r.shown && e; odd = r.shown && not e }
    ∷ stripe_from (if r.shown then not e else e) rows

unfoldable pub update_stripes : List TableRow → List TableRow
unfolding stripe_from
update_stripes rows = stripe_from true rows

abbrev pub mark : Bool → Option Bool → Option Bool
mark b none = none
mark b (some c) = some b

-- `id.split('_').length - 1`
unfoldable pub level_of : Text → ℕ
level_of [] = 0
level_of (c ∷ t) = if c == b'_' then suc (level_of t) else level_of t

unfoldable pub level_row : ℕ → TableRow → TableRow
unfolding level_of
level_row level r =
    if ltb (level_of r.id) (level + 1)
    then record r { folder = mark true r.folder; arrow = mark true r.arrow; shown = true }
    else if level_of r.id == level + 1
    then record r { arrow = mark false r.arrow; folder = mark false r.folder; shown = true }
    else record r { shown = false }

level_rows : ℕ → List TableRow → List TableRow
unfolding level_row
level_rows level [] = []
level_rows level (r ∷ rows) = level_row level r ∷ level_rows level rows

unfoldable pub toggle_level : ℕ → List TableRow → List TableRow
unfolding level_rows update_stripes
toggle_level level rows = update_stripes (level_rows level rows)

abbrev is_digit : ℕ → Bool
is_digit c = leb b'0' c && leb c b'9'

-- `\d*_$`
digits_bar : Text → Bool
digits_bar [] = false
digits_bar (c ∷ []) = c == b'_'
digits_bar (c ∷ d ∷ t) = is_digit c && digits_bar (d ∷ t)

-- `\d+_$`
number_bar : Text → Bool
unfolding digits_bar
number_bar [] = false
number_bar (c ∷ t) = is_digit c && digits_bar t

-- `^row_id\d+_$`, with the row's own id as `key`.
unfoldable pub is_child : Text → Text → Bool
unfolding number_bar
is_child [] t = number_bar t
is_child (k ∷ key) [] = false
is_child (k ∷ key) (c ∷ t) = k == c && is_child key t

-- `childRows.filter(':first').is(':visible')`
unfoldable pub first_child_shown : Text → List TableRow → Bool
unfolding is_child
first_child_shown key [] = false
first_child_shown key (r ∷ rows) =
    let rest = first_child_shown key rows in if is_child key r.id then r.shown else rest

unfoldable pub hide_row : Text → TableRow → TableRow
unfolding starts_with
hide_row key r = if starts_with key r.id then record r { shown = false } else r

unfoldable pub hide_below : Text → List TableRow → List TableRow
unfolding hide_row
hide_below key [] = []
hide_below key (r ∷ rows) = hide_row key r ∷ hide_below key rows

unfoldable pub show_child : Text → TableRow → TableRow
unfolding is_child
show_child key r =
    if is_child key r.id
    then record r { folder = mark false r.folder; arrow = mark false r.arrow; shown = true }
    else r

unfoldable pub show_children : Text → List TableRow → List TableRow
unfolding show_child
show_children key [] = []
show_children key (r ∷ rows) = show_child key r ∷ show_children key rows

abbrev pub mark_row : Bool → TableRow → TableRow
mark_row b r = record r { folder = mark b r.folder; arrow = mark b r.arrow }

-- The clicked row and the rows after it.
unfoldable pub toggle_at : Text → TableRow → List TableRow → List TableRow
unfolding first_child_shown hide_below show_children
toggle_at key r rows =
    if first_child_shown key rows
    then mark_row false r ∷ hide_below key rows
    else mark_row true r ∷ show_children key rows

unfoldable pub toggle_rows : Text → List TableRow → List TableRow
unfolding toggle_at text_eq
toggle_rows key [] = []
toggle_rows key (r ∷ rows) =
    let rest = toggle_rows key rows in if text_eq r.id key then toggle_at key r rows else r ∷ rest

-- `toggleFolder(id)` with `key` for `row_id`.
unfoldable pub toggle_folder : Text → List TableRow → List TableRow
unfolding toggle_rows update_stripes
toggle_folder key rows = update_stripes (toggle_rows key rows)
