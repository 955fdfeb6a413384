-- ===== src/Search/Box.antt =====
-- docs/search/search.js, `SearchBox` and `init_search`: the search field, its timers, the list of
-- sections, and the scripts that hold the results.
pub mod Sections
pub mod Run
pub mod Laws
pub mod Invariant
use async_fw.Base.{
  ℕ, zero, suc, ◌+◌, ◌-◌, Bool, true, false, ◌&&◌, ◌||◌, not, Option, none, some, List, [], ◌∷◌,
  ◌++◌, if◌then◌else◌, ◌==◌, ltb, length, get_elem?, take,
}
use async_fw.Base.Int.{ℤ, pos, ◌+ℤ◌, ◌-ℤ◌, ltb_ℤ}
use async_fw.Base.Text.{Text, codes, text_eq, index_of}
use async_fw.Cookie.{Browser, read_setting, write_setting}
use async_fw.Search.Encode.{hex}
use async_fw.Search.Results.{Found, Results, create_results, search, strip_leading}

-- What docs/search/searchdata.js defines for one section.
pub record Section : Type 0 where
  pub content : Text
  pub name : Text
  pub label : Text

-- The site and the page around the box. `files` gives what a script of results defines.
pub record Site : Type 0 where
  pub sections : List Section
  pub results_path : Text
  pub files : Text → List Found
  pub lower : Text → Text
  pub from_url : Text
  pub date : Text

-- A script that is being loaded, with what its `onload` closes over.
pub record Job : Type 0 where
  pub file : Text
  pub value : Text

pub record Place : Type 0 where
  pub left : ℤ
  pub top : ℤ
  pub width : ℤ
  pub height : ℤ

pub record Box : Type 0 where
  pub key_timer : Bool
  pub hide_timer : Bool
  pub last_search_value : Text
  pub search_index : ℕ
  pub search_active : Bool
  pub field_value : Text
  pub select_shown : Bool
  pub results_shown : Bool
  pub close_shown : Bool
  pub window : Place
  pub marks : List Bool
  pub settings : Browser
  pub pending : List Job
  pub search_data : Option (List Found)
  pub results : Results

-- The state that `SearchBox` starts from, on a page with no results.
abbrev pub new_search_box : Browser → Box
new_search_box settings = record {
  key_timer = false;
  hide_timer = false;
  last_search_value = [];
  search_index = 0;
  search_active = false;
  field_value = [];
  select_shown = false;
  results_shown = false;
  close_shown = false;
  window = record { left = pos 0; top = pos 0; width = pos 0; height = pos 0 };
  marks = [];
  settings = settings;
  pending = [];
  search_data = none;
  results = record {
    rows = [];
    no_matches = false;
    searching = false;
    last_match_count = 0;
    last_key = 0;
    repeat_on = false;
  };
}

-- `replace(/ +/g, "")`
unfoldable pub strip_spaces : Text → Text
strip_spaces [] = []
strip_spaces (c ∷ t) = if c == b' ' then strip_spaces t else c ∷ strip_spaces t

abbrev pub is_empty : Text → Bool
is_empty t = text_eq t []

unfoldable pub activate : Bool → Box → Box
activate is_active b =
    if is_active || b.results_shown
    then record b { search_active = true }
    else record b { search_active = false; last_search_value = []; field_value = [] }

unfoldable pub close_results_window : Box → Box
unfolding activate
close_results_window b = activate false (record b { results_shown = false; close_shown = false })

unfoldable pub close_selection_window : Box → Box
close_selection_window b = record b { select_shown = false }

unfoldable pub on_search_select_show : Box → Box
on_search_select_show b = record b { select_shown = true; hide_timer = false }

unfoldable pub on_search_select_hide : Box → Box
on_search_select_hide b = record b { hide_timer = true }

-- The `SelectItem` elements are one for each section.
abbrev pub select_item_count : Site → ℕ
select_item_count s = length s.sections

id_by_name : Text → List Section → ℕ → ℕ
id_by_name name [] j = 0
id_by_name name (x ∷ xs) j =
    let rest = id_by_name name xs (suc j) in if text_eq x.label name then j else rest

unfoldable pub get_selection_id_by_name : Site → Text → ℕ
unfolding id_by_name
get_selection_id_by_name s name = id_by_name name s.sections 0

abbrev all_off : List Section → List Bool
all_off [] = []
all_off (y ∷ ys) = false ∷ all_off ys

-- The mark of item `id` is set, every other one is reset.
marks_for : ℕ → List Section → List Bool
marks_for id [] = []
marks_for zero (x ∷ xs) = true ∷ all_off xs
marks_for (suc id) (x ∷ xs) = false ∷ marks_for id xs

abbrev pub search_cookie_name : Text
search_cookie_name = codes "search_grp"

abbrev pub save_name : Text → Option Section → Browser → Browser
save_name date none b = b
save_name date (some x) b = write_setting date search_cookie_name x.label (pos 0) b

unfoldable pub select_item_set : Site → ℕ → Box → Box
unfolding marks_for
select_item_set s id b = record b {
  marks = marks_for id s.sections;
  settings = save_name s.date (get_elem? s.sections id) b.settings;
}
