-- ===== src/Search/Tests.antt =====
-- docs/search/search.js: runs on the tables of docs/search.
use async_fw.Base.{
  ℕ, zero, suc, ◌+◌, ◌≡◌, refl, map, Bool, true, false, ◌&&◌, ◌||◌, Option, none, some, List, [],
  ◌∷◌, ◌++◌, if◌then◌else◌, leb, ltb, All, all, get_elem?, length, arith, ◌↔◌,
}
use async_fw.Base.Int.{pos, ◌+ℤ◌, ◌≤ℤ◌}
use async_fw.Base.Text.{Text, codes, text_eq, starts_with, index_of}
use async_fw.Cookie.{Browser}
use async_fw.Cookie.Jar.{get_item}
use async_fw.Search.Encode.{convert_to_id, hex, hex_digit}
use async_fw.Search.Encode.Laws.{IsUnit, spills, starts_with-convert_to_id}
use async_fw.Search.Results.{
  Found, Row, Kids, Link, Results, search, nav_prev, strip_leading, strip_trailing,
}
use async_fw.Search.Results.Filter.{count_shown, search-count}
use async_fw.Search.Results.Focus.{IsFirst, IsLast, is_shown}
use async_fw.Search.Keys.{
  keydown, keypress, keyup, process_keys, nav, kids_at, child, item_or_none, is_unfolded,
}
use async_fw.Search.Keys.Moves.{
  pressed, process_keys_held, nav_down_folded, nav_up_folded, nav_up_hidden, item_or_field,
}
use async_fw.Search.Box.{Section, Site, Job, Box, new_search_box, select_item_set, strip_spaces}
use async_fw.Search.Box.Run.{
  Measures, place_window, file_name, returned, thrown, search_now, script_loaded,
  on_search_select_key, init_search, Event, typed, key_timer_fired, select_key, loaded, step,
  state_of, run,
}
use async_fw.Search.Box.Laws.{
  rows_for, script_loaded-search_now, script_loaded_order, place_window_bounds,
}
use async_fw.Search.Box.Invariant.{IsValid, run-IsValid_box, step_thrown, select_key_down_thrown}
use async_fw.Search.Box.Sections.{init_search-select_item_set}

abbrev lower_char : ℕ → ℕ
lower_char c = if leb b'A' c && leb c b'Z' then c + 32 else c

abbrev lower : Text → Text
lower t = map lower_char t

abbrev files_section : Section
files_section = record {
  content = codes "acdfhilmprstv";
  name = codes "files";
  label = codes "Files";
}

abbrev enums_section : Section
enums_section = record {
  content = codes "ceimopqrst";
  name = codes "enums";
  label = codes "Enumerations";
}

abbrev color : Found
color = record {
  id = codes "color_0";
  label = codes "Color";
  hits = record { url = codes "../c.html"; in_frame = true; scope = codes "AsyncFw" } ∷ [];
}

abbrev timeout : Found
timeout = record {
  id = codes "timeout_21";
  label = codes "timeout";
  hits = record { url = codes "../t.html"; in_frame = true; scope = codes "Timer" } ∷ [];
}

abbrev enums_0 : Text
enums_0 = codes "search/enums_0.js"

abbrev files_of : Text → List Found
files_of name = if text_eq name enums_0 then color ∷ timeout ∷ [] else timeout ∷ []

abbrev site : Site
site = record {
  sections = files_section ∷ enums_section ∷ [];
  results_path = codes "search/";
  files = files_of;
  lower = lower;
  from_url = [];
  date = [];
}

abbrev chrome : Browser
chrome = record { chrome = true; local = []; session = []; jar = [] }

abbrev panel : List Row → Results
panel rows = record {
  rows = rows;
  no_matches = false;
  searching = false;
  last_match_count = 0;
  last_key = 0;
  repeat_on = false;
}

abbrev box : Text → Box
box t = record (new_search_box chrome) { search_index = 1; search_active = true; field_value = t }

abbrev measures : Measures
measures = record {
  box_x = pos 900;
  box_y = pos 10;
  results_width = pos 300;
  body_width = pos 1000;
  body_height = pos 300;
}

abbrev plain_row : Text → Bool → Option Kids → Row
plain_row id shown kids = record {
  id = id;
  link = record { href = []; target = []; text = [] };
  scope = [];
  shown = shown;
  kids = kids;
}

abbrev some_link : Link
some_link = record { href = []; target = []; text = codes "x" }

abbrev three : List Row
three =
    plain_row (codes "SR_a") true (some (record { unfolded = true; links = some_link ∷ [] }))
    ∷ plain_row (codes "SR_b") false
        (some (record { unfolded = false; links = some_link ∷ some_link ∷ [] }))
    ∷ plain_row (codes "SR_c") true none
    ∷ []

abbrev folded : List Row
folded =
    plain_row (codes "SR_a") true none
    ∷ plain_row (codes "SR_b") false none
    ∷ plain_row (codes "SR_c") true none
    ∷ []

-- A search for "Co" shows `Color`, and one for "timeout!" shows `timeout`, whose tag is `_21`.
spellings :
    (convert_to_id (codes "a b") ≡ codes "a_20b")
    × (convert_to_id (codes "timeout!") ≡ codes "timeout_21")
    × (convert_to_id (9 ∷ []) ≡ codes "_09")
unfolding convert_to_id hex_digit
spellings = (refl, refl, refl)

units : (t : Text) → all (λ c. ltb c 65536) t ≡ true → All IsUnit t
units [] h = tt
units (c ∷ t) h = (ground arith, units t (ground arith))

starts_with-convert_to_id_example :
    starts_with (convert_to_id (codes "o!")) (convert_to_id (codes "o") ++ codes "_21")
    ≡ (starts_with (codes "o!") (codes "o") || spills (codes "o!") (codes "o") (codes "_21"))
starts_with-convert_to_id_example =
    starts_with-convert_to_id (codes "o!") (codes "o") (codes "_21") (units (codes "o!") refl)
      (units (codes "o") refl)

search-count_example :
    let r' = search lower [] (codes "b") (panel folded) in
    (r'.last_match_count ≡ count_shown r'.rows)
    × ((r'.no_matches ≡ true) ↔ All (λ row. row.shown ≡ false) r'.rows)
    × (length r'.rows ≡ 3)
search-count_example = search-count lower [] (codes "b") (panel folded)

process_keys_held_example :
    let r = panel three in
    let down = process_keys (record { type = keydown; code = 40 }) r in
    let first = process_keys (record { type = keypress; code = 40 }) down.0 in
    let second = process_keys (record { type = keypress; code = 40 }) first.0 in
    let up = process_keys (record { type = keyup; code = 40 }) second.0 in
    (down.1 ≡ true)
    × (first.1 ≡ false)
    × (second.1 ≡ true)
    × (second.0 ≡ first.0)
    × (up.1 ≡ false)
    × (process_keys (record { type = keypress; code = 40 }) up.0 ≡ (up.0, false))
process_keys_held_example = process_keys_held 40 40 40 40 (panel three) refl

nav_down_folded_example :
    let o = nav (pressed 40) 0 (panel folded) in
    (next : Option ℕ) × (o.focus ≡ item_or_none next)
    × IsFirst folded 1 next
    × (o.results.rows ≡ folded)
nav_down_folded_example = nav_down_folded 0 (panel folded) refl

folded_flat : (k : ℕ) → is_unfolded (kids_at (panel folded) k) ≡ false
folded_flat zero = refl
folded_flat (suc zero) = refl
folded_flat (suc (suc zero)) = refl
folded_flat (suc (suc (suc k))) = refl

nav_up_folded_example :
    let o = nav (pressed 38) 2 (panel folded) in
    (prev : Option ℕ) × (o.focus ≡ some (item_or_field prev))
    × IsLast folded 2 prev
    × (o.results.rows ≡ folded)
nav_up_folded_example = nav_up_folded 2 (panel folded) (omega arith) folded_flat

nav_up_hidden_example :
    ((nav (pressed 38) 2 (panel three)).focus ≡ some (child 1 1)) × (is_shown three 1 ≡ false)
unfolding nav_prev
nav_up_hidden_example = nav_up_hidden 1 0 1 (panel three) (omega arith) refl (λ e. cc) refl refl

place_window_bounds_example :
    let w = place_window measures in
    (pos 10 ≤ℤ w.left)
    × (w.width ≤ℤ pos 300)
    × (w.height ≤ℤ pos 400)
    × (w.left +ℤ w.width +ℤ pos 8 ≤ℤ pos 1000)
    × (w.top +ℤ w.height +ℤ pos 8 ≤ℤ pos 300)
place_window_bounds_example = place_window_bounds measures

-- The search for `timeout!` finds the letter `t` at place 9 of the enumerations.
abbrev box_timeout : Box
box_timeout = box (codes " timeout!")

enums_9 : file_name site enums_section 9 ≡ codes "search/enums_9.js"
unfolding hex hex_digit
enums_9 = refl

script_loaded-search_now_example :
    (asked : Box) × (search_now site measures box_timeout ≡ returned asked)
    × (let c = script_loaded site measures 0 asked in
        (is_shown c.results.rows 0 ≡ (
          starts_with (codes "timeout!") (codes "timeout")
          || spills (codes "timeout!") (codes "timeout") (codes "_21")))
        × (c.results_shown ≡ true)
        × (c.pending ≡ [])
        × (c.last_search_value ≡ codes "timeout!"))
unfolding text_eq convert_to_id strip_leading strip_trailing index_of starts_with hex hex_digit
script_loaded-search_now_example =
    script_loaded-search_now site measures box_timeout enums_section 9 0 timeout (codes "timeout")
      (codes "_21") refl refl refl refl refl (units (codes "timeout") refl)
      (units (codes "timeout!") refl)

abbrev job : Text → Text → Job
job file value = record { file = file; value = value }

abbrev two_asked : Box
two_asked = record (box (codes "t")) {
  pending = job enums_0 (codes "c") ∷ job (codes "search/enums_9.js") (codes "t") ∷ [];
  last_search_value = codes "t";
}

script_loaded_order_example :
    let swapped = script_loaded site measures 0 (script_loaded site measures 1 two_asked) in
    let in_order = script_loaded site measures 0 (script_loaded site measures 0 two_asked) in
    (swapped.results.rows ≡ rows_for site (job enums_0 (codes "c")))
    × (swapped.last_search_value ≡ codes "t")
    × (in_order.results.rows ≡ rows_for site (job (codes "search/enums_9.js") (codes "t")))
    × (in_order.last_search_value ≡ codes "t")
script_loaded_order_example =
    script_loaded_order site measures measures (job enums_0 (codes "c"))
      (job (codes "search/enums_9.js") (codes "t")) two_asked refl refl

box-IsValid : (t : Text) → IsValid site (box t)
box-IsValid t = record { index_bound = omega arith; close_with_results = refl; asked = tt }

abbrev events : List (Measures × Event)
events =
    (measures, typed (codes "co"))
    ∷ (measures, key_timer_fired)
    ∷ (measures, select_key 40)
    ∷ (measures, loaded 0)
    ∷ []

run-IsValid_box_example : IsValid site (run site events (box []))
run-IsValid_box_example = run-IsValid_box site events (box-IsValid [])

abbrev past : Box
past = state_of (on_search_select_key site measures 40 (box (codes "co")))

step_thrown_example : past.search_index ≡ 2
unfolding on_search_select_key run step text_eq search_now strip_spaces select_item_set
step_thrown_example =
    step_thrown site [] measures (select_key 40) (box (codes "co")) past (box-IsValid (codes "co"))
      refl

select_key_down_thrown_example :
    (c : Box) × (on_search_select_key site measures 40 (box (codes "co")) ≡ thrown c)
    × (c.search_index ≡ 2)
    × (c.settings ≡ chrome)
unfolding text_eq strip_spaces
select_key_down_thrown_example =
    select_key_down_thrown site measures (box (codes "co")) (omega arith) refl refl

init_search-select_item_set_example :
    let saved = (select_item_set site 1 (box [])).settings in
    let c = state_of (init_search site measures (record (box []) { settings = saved })) in
    (c.search_index ≡ 1) × (get_elem? c.marks 0 ≡ some false)
unfolding text_eq get_item
init_search-select_item_set_example =
    init_search-select_item_set site measures 1 enums_section (box []) (box []) 0 refl (refl, tt)
      refl refl refl (omega arith)
