-- ===== src/Search/Box/Run.antt =====
-- docs/search/search.js, `SearchBox`: the handlers that start a search, the search itself, and the
-- scripts of results that arrive in any order.
use async_fw.Base.{
  ℕ, zero, suc, ◌+◌, ◌-◌, Bool, true, false, ◌&&◌, ◌||◌, not, Option, none, some, List, [], ◌∷◌,
  ◌++◌, if◌then◌else◌, ◌==◌, ltb, get_elem?, take,
}
use async_fw.Base.Int.{ℤ, pos, ◌+ℤ◌, ◌-ℤ◌, ltb_ℤ}
use async_fw.Base.Text.{Text, codes, text_eq, index_of}
use async_fw.Cookie.{read_setting}
use async_fw.Search.Encode.{hex}
use async_fw.Search.Results.{Found, Results, create_results, search, strip_leading}
use async_fw.Search.Box.{
  Section, Site, Job, Place, Box, strip_spaces, is_empty, activate, close_results_window,
  close_selection_window, on_search_select_show, on_search_select_hide, select_item_count,
  get_selection_id_by_name, select_item_set, search_cookie_name,
}

-- What the page measures when results come in.
pub record Measures : Type 0 where
  pub box_x : ℤ
  pub box_y : ℤ
  pub results_width : ℤ
  pub body_width : ℤ
  pub body_height : ℤ

-- Where the window of the results is put. A negative width or height, of which a browser takes no
-- notice, is kept as the number that the code assigns.
unfoldable pub place_window : Measures → Place
place_window m =
    let aligned = m.box_x +ℤ pos 150 -ℤ m.results_width in
    let left = (if ltb_ℤ aligned (pos 10) then pos 10 else aligned) in
    let top = m.box_y +ℤ pos 20 in
    record {
      left = left;
      top = top;
      width =
          if ltb_ℤ m.body_width (pos 300 +ℤ left +ℤ pos 8)
          then m.body_width -ℤ left -ℤ pos 8
          else pos 300;
      height =
          if ltb_ℤ m.body_height (pos 400 +ℤ top +ℤ pos 8)
          then m.body_height -ℤ top -ℤ pos 8
          else pos 400;
    }

unfoldable pub open_window : Measures → Box → Box
open_window m b =
    if b.results_shown
    then b
    else record b { results_shown = true; close_shown = true; window = place_window m }

-- `createResults`, if a script has defined `searchData`.
abbrev pub fill : Site → Option (List Found) → Results → Results
fill s none r = r
fill s (some fs) r = record r { rows = create_results s.results_path fs; no_matches = false }

-- `handleResults` with the text that it searches for.
unfoldable pub handle_results : Site → Measures → Text → Box → Box
unfolding open_window
handle_results s m text b =
    open_window m
      (record b { results = search s.lower s.from_url text (fill s b.search_data b.results) })

-- The first letter of the search; a string that starts with a surrogate is no number above 1, so
-- the second unit of a pair is never taken.
abbrev pub idx_char : Site → Text → Text
idx_char s value = s.lower (take 1 value)

abbrev pub file_name : Site → Section → ℕ → Text
file_name s section idx =
    s.results_path ++ (section.name ++ (codes "_" ++ (hex idx ++ codes ".js")))

-- The script is asked for, or there is none and the results are empty at once.
unfoldable pub start_search : Site → Measures → Section → Text → Option ℕ → Box → Box
start_search s m section value (some idx) b = record b {
  pending = b.pending ++ record { file = file_name s section idx; value = value } ∷ [];
  last_search_value = value;
}
start_search s m section value none b = record (handle_results s m (codes "====") b) {
  last_search_value = value;
}

-- How a handler ends, and the state it leaves.
pub data Ran : Type 0 where
  returned : Box → Ran
  thrown : Box → Ran

search_in : Site → Measures → Option Section → Box → Ran
unfolding start_search
search_in s m none b = thrown b
search_in s m (some section) b =
    let value = strip_leading b.field_value in
    returned (start_search s m section value (index_of (idx_char s value) section.content) b)

-- `Search`: with no section of the index, `indexOf` of `undefined` throws.
unfoldable pub search_now : Site → Measures → Box → Ran
unfolding search_in
search_now s m b =
    search_in s m (get_elem? s.sections b.search_index) (record b { key_timer = false })

-- The global `searchData` of a script that has run, and then its `onload`.
run_script : Site → Measures → List Job → Option Job → Box → Box
run_script s m rest none b = b
run_script s m rest (some j) b =
    handle_results s m j.value (record b { pending = rest; search_data = some (s.files j.file) })

abbrev pub without {ℓ} : {A : Type ℓ} → ℕ → List A → List A
without i [] = []
without zero (x ∷ xs) = xs
without (suc i) (x ∷ xs) = x ∷ without i xs

-- The scripts are loaded in any order: `i` is the place of the one that arrives.
unfoldable pub script_loaded : Site → Measures → ℕ → Box → Box
unfolding run_script
script_loaded s m i b = run_script s m (without i b.pending) (get_elem? b.pending i) b

unfoldable pub on_select_item : Site → Measures → ℕ → Box → Ran
on_select_item s m id b =
    let chosen = select_item_set s id (record b { search_index = id }) in
    if not (is_empty (strip_spaces chosen.field_value)) && chosen.search_active
    then search_now s m chosen
    else returned chosen

abbrev pub after : (Box → Box) → Ran → Ran
after f (returned b) = returned (f b)
after f (thrown b) = thrown b

unfoldable pub on_search_select_key : Site → Measures → ℕ → Box → Ran
unfolding on_select_item
on_search_select_key s m code b =
    if code == 40 && ltb b.search_index (select_item_count s)
    then on_select_item s m (b.search_index + 1) b
    else if code == 38 && ltb 0 b.search_index
    then on_select_item s m (b.search_index - 1) b
    else if code == 13 || code == 27
    then after close_selection_window (on_select_item s m b.search_index b)
    else returned b

abbrev pub hide_results : Box → Box
hide_results b = record b { results_shown = false; close_shown = false; last_search_value = [] }

-- The end of `OnSearchFieldChange`.
unfoldable pub value_changed : Box → Box
value_changed b =
    if text_eq (strip_spaces b.field_value) b.last_search_value
    then b
    else if is_empty (strip_spaces b.field_value)
    then hide_results b
    else record b { key_timer = true }

-- `OnSearchFieldChange`, but for the element that it focuses.
unfoldable pub on_search_field_change : ℕ → Bool → Box → Box
unfolding value_changed
on_search_field_change code shift b =
    let c = record b { key_timer = false } in
    if code == 40 || code == 13
    then (if shift then on_search_select_show c else value_changed c)
    else if code == 27
    then activate false (hide_results c)
    else value_changed c

-- `init_search` once the items of the sections are in place. A name that was never saved is the
-- number 0, which is no label.
unfoldable pub init_search : Site → Measures → Box → Ran
init_search s m b =
    let name = read_setting search_cookie_name (codes "0") b.settings in
    on_select_item s m (get_selection_id_by_name s name) b

-- The keys on the field that opens the list of sections.
unfoldable pub on_select_field_key : ℕ → Box → Box
on_select_field_key code b =
    if code == 13 || code == 40
    then (if b.select_shown then close_selection_window b else on_search_select_show b)
    else b

pub data Event : Type 0 where
  typed : Text → Event
  field_key : ℕ → Bool → Event
  focused : Bool → Event
  key_timer_fired hide_timer_fired select_entered select_left closed : Event
  item_clicked : ℕ → Event
  select_key select_field_key : ℕ → Event
  loaded : ℕ → Event

-- One event of the page. A timer may fire after its field is reset or written over, since only
-- some of the code that does so stops the timer; an item is clicked only if it is there.
unfoldable pub step : Site → Measures → Event → Box → Ran
unfolding search_now on_select_item on_search_select_key
step s m (typed t) b = returned (record b { field_value = t })
step s m (field_key code shift) b = returned (on_search_field_change code shift b)
step s m (focused on) b = returned (activate on b)
step s m key_timer_fired b = search_now s m b
step s m hide_timer_fired b = returned (close_selection_window b)
step s m select_entered b = returned (on_search_select_show b)
step s m select_left b = returned (on_search_select_hide b)
step s m closed b = returned (close_results_window b)
step s m (item_clicked id) b =
    if ltb id (select_item_count s) then on_select_item s m id b else returned b
step s m (select_key code) b = on_search_select_key s m code b
step s m (select_field_key code) b = returned (on_select_field_key code b)
step s m (loaded i) b = returned (script_loaded s m i b)

-- A handler that throws leaves its state to the next event.
abbrev pub state_of : Ran → Box
state_of (returned b) = b
state_of (thrown b) = b

unfoldable pub run : Site → List (Measures × Event) → Box → Box
unfolding step
run s [] b = b
run s ((m, e) ∷ es) b = run s es (state_of (step s m e b))
