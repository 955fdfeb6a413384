-- ===== src/CodeFold.antt =====
-- docs/dynsections.js, `codefold`: the parts of a source listing that are folded.
pub mod Run
mod Tests
use async_fw.Base.{
  ℕ, zero, suc, ◌+◌, Bool, true, false, ◌&&◌, ◌||◌, not, Option, none, some, List, [], ◌∷◌, ◌++◌,
  map, if◌then◌else◌, ◌==◌, leb, length, drop,
}
use async_fw.Base.Text.{Text, codes, text_eq, starts_with}
use async_fw.Base.Spaces.{drop_spaces}

-- A part `div.foldopen` of the listing, as `init` finds it: the html of its first line, with the
-- mark `fold minus` in its place, and what the part starts and ends with.
pub record Part : Type 0 where
  pub id : Text
  pub first_line : Text
  pub start : Text
  pub end_text : Text

-- A part once `init` has added its folded form: what is displayed of the two, whether the mark of
-- the folded form is `plus`, and the html of its line but for the class of the mark.
pub record Fold : Type 0 where
  pub id : Text
  pub open_shown : Bool
  pub closed_shown : Bool
  pub closed_plus : Bool
  pub closed_line : Text

-- `opened` of the object, the class of `fold_all`, and the parts.
pub record CodeFolds : Type 0 where
  pub opened : Bool
  pub all_plus : Bool
  pub folds : List Fold

reverse_onto : Text → Text → Text
reverse_onto [] r = r
reverse_onto (c ∷ t) r = reverse_onto t (c ∷ r)

abbrev backwards : Text → Text
backwards t = reverse_onto t []

-- From the back: the blanks, the start marker and the blanks before it, or nothing at all.
strip_back : Text → Text → Text → Text
unfolding drop_spaces starts_with
strip_back start line rest =
    if starts_with start rest then drop_spaces (drop (length start) rest) else line

-- `replace(new RegExp('\\s*'+start+'\\s*$','g'),'')` for a `start` with no operators of patterns,
-- such as `{`, which is the only one that the listings have.
unfoldable pub strip_start : Text → Text → Text
unfolding strip_back reverse_onto
strip_start start line =
    backwards (strip_back (backwards start) (backwards line) (drop_spaces (backwards line)))

-- The line of the folded form, before its link and what the part ends with.
abbrev closed_line_of : Part → Text
closed_line_of p = if text_eq p.start [] then p.first_line else strip_start p.start p.first_line

-- `'<a href="javascript:codefold.toggle(\''+id+'\')">&#8230;</a>'`
abbrev toggle_link : Text → Text
toggle_link id = codes "<a href=\"javascript:codefold.toggle('" ++ (id ++ codes "')\">&#8230;</a>")

-- `init` on one part: its mark is not changed to `plus` here, since the class of the copied mark is
-- `fold minus` and `span[class=fold]` selects none.
init_fold : Part → Fold
unfolding strip_start
init_fold p = record {
  id = p.id;
  open_shown = true;
  closed_shown = false;
  closed_plus = false;
  closed_line = closed_line_of p ++ (codes " " ++ (p.start ++ (toggle_link p.id ++ p.end_text)));
}

unfoldable pub init : List Part → CodeFolds
unfolding init_fold text_eq
init parts = record { opened = true; all_plus = false; folds = map init_fold parts }

fold_shut : Fold → Fold
fold_shut f = record f { open_shown = false; closed_shown = true; closed_plus = true }

fold_open : Fold → Fold
fold_open f = record f { open_shown = true; closed_shown = false }

unfoldable pub toggle_all : CodeFolds → CodeFolds
unfolding fold_shut fold_open
toggle_all c =
    if c.opened
    then record { opened = false; all_plus = true; folds = map fold_shut c.folds }
    else record { opened = true; all_plus = false; folds = map fold_open c.folds }

toggle_fold : Text → Fold → Fold
unfolding text_eq
toggle_fold id f =
    if text_eq f.id id
    then record f {
      open_shown = not f.open_shown;
      closed_shown = not f.closed_shown;
      closed_plus = true;
    }
    else f

unfoldable pub toggle : Text → CodeFolds → CodeFolds
unfolding toggle_fold
toggle id c = record c { folds = map (toggle_fold id) c.folds }

pub data Click : Type 0 where
  on_all : Click
  on_fold : Text → Click

unfoldable pub run : List Click → CodeFolds → CodeFolds
unfolding toggle_all toggle
run [] c = c
run (on_all ∷ es) c = run es (toggle_all c)
run (on_fold id ∷ es) c = run es (toggle id c)
