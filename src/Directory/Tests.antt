-- ===== src/Directory/Tests.antt =====
-- docs/dynsections.js: a table with one folder of two rows, the second of them a folder too.
use async_fw.Base.{◌≡◌, refl, Bool, true, false, Option, some, none, List, [], ◌∷◌, get_elem?}
use async_fw.Base.Text.{Text, codes, text_eq, starts_with}
use async_fw.Directory.{TableRow, mark, is_child, update_stripes, toggle_level, toggle_folder}
use async_fw.Directory.Stripes.{update_stripes-place}
use async_fw.Directory.Fold.{IsFolded}
use async_fw.Directory.Toggle.{toggle_folder-toggle_folder}

abbrev row : Text → Bool → Option Bool → TableRow
row id shown mark = record {
  id = id;
  shown = shown;
  arrow = mark;
  folder = mark;
  even = false;
  odd = false;
}

abbrev top : TableRow
top = row (codes "row_0_") true (some false)

abbrev below : List TableRow
below =
    row (codes "row_0_0_") false none
    ∷ row (codes "row_0_1_") false (some false)
    ∷ row (codes "row_0_1_0_") false none
    ∷ row (codes "row_1_") true none
    ∷ []

-- Only the two rows of the folder itself are shown, and the classes alternate over what is visible.
unfolded :
    toggle_folder (codes "row_0_") (top ∷ below)
    ≡ record top { arrow = some true; folder = some true; even = true }
      ∷ record (row (codes "row_0_0_") true none) { odd = true }
      ∷ record (row (codes "row_0_1_") true (some false)) { even = true }
      ∷ row (codes "row_0_1_0_") false none
      ∷ record (row (codes "row_1_") true none) { odd = true }
      ∷ []
unfolding toggle_folder
unfolded = refl

-- The first level hides what is inside the inner folder.
first_level :
    toggle_level 2 (top ∷ below)
    ≡ record top { arrow = some true; folder = some true; even = true }
      ∷ record (row (codes "row_0_0_") true none) { odd = true }
      ∷ record (row (codes "row_0_1_") true (some false)) { even = true }
      ∷ row (codes "row_0_1_0_") false none
      ∷ record (row (codes "row_1_") true none) { odd = true }
      ∷ []
unfolding toggle_level
first_level = refl

top-IsFolded : IsFolded (codes "row_0_") top below
unfolding text_eq is_child starts_with
top-IsFolded = record {
  own = refl;
  folder_closed = refl;
  arrow_closed = refl;
  has_child = refl;
  hidden = (
    (λ _. refl, λ _. (refl, refl)),
    ((λ _. refl, λ _. (refl, refl)), ((λ _. refl, λ e. cc), ((λ e. cc, λ e. cc), tt))),
  );
}

toggle_folder-toggle_folder_example :
    toggle_folder (codes "row_0_") (toggle_folder (codes "row_0_") (top ∷ below))
    ≡ update_stripes (top ∷ below)
toggle_folder-toggle_folder_example =
    toggle_folder-toggle_folder (codes "row_0_") [] top below tt top-IsFolded

update_stripes-place_example :
    get_elem? (update_stripes (top ∷ below)) 4
    ≡ some (record (row (codes "row_1_") true none) { odd = true })
update_stripes-place_example =
    update_stripes-place (top ∷ below) 4 (row (codes "row_1_") true none) refl
