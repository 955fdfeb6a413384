-- ===== src/Search/Box/Laws.antt =====
-- docs/search/search.js, `SearchBox.Search`: what the panel shows once a script of results is there.
use async_fw.Base.{
  ℕ, zero, suc, ◌≡◌, refl, ap, ◌∙◌, true, false, ◌||◌, some, List, [], ◌∷◌, ◌++◌, if◌then◌else◌,
  ◌==◌, All, get_elem?, length, arith, Bool-cases, inl, inr,
}
use async_fw.Base.Int.{ℤ, pos, ◌+ℤ◌, ◌-ℤ◌, ◌≤ℤ◌, ltb_ℤ, int_laws}
use async_fw.Base.Text.{Text, codes, text_eq, starts_with, index_of}
use async_fw.Search.Encode.{convert_to_id}
use async_fw.Search.Encode.Laws.{IsUnit, spills}
use async_fw.Search.Results.{
  Found, Row, Results, create_results, search, strip_leading, strip_trailing,
}
use async_fw.Search.Results.Filter.{search-shown, get_elem?-create_results}
use async_fw.Search.Results.Focus.{is_shown}
use async_fw.Search.Box.{Section, Site, Job, Box}
use async_fw.Search.Box.Run.{
  Measures, place_window, open_window, fill, handle_results, idx_char, file_name, returned,
  search_now, without, script_loaded,
}

module _ {ℓ} {A : Type ℓ} where
  get_elem?-last : (xs : List A) (x : A) → get_elem? (xs ++ x ∷ []) (length xs) ≡ some x
  get_elem?-last [] x = refl
  get_elem?-last (y ∷ xs) x = get_elem?-last xs x

  without-last : (xs : List A) (x : A) → without (length xs) (xs ++ x ∷ []) ≡ xs
  without-last [] x = refl
  without-last (y ∷ xs) x = ap (y ∷◌) (without-last xs x)

strip_leading_idem : (t : Text) → strip_leading (strip_leading t) ≡ strip_leading t
unfolding strip_leading
strip_leading_idem [] = refl
strip_leading_idem (c ∷ t) = elim (Bool-cases (c == b' ')) [
  | inl e ↦ rw e (strip_leading_idem t)
  | inr e ↦ rw e (rw e refl)
]

is_shown-get_elem? :
    (rows : List Row) (k : ℕ) (row : Row)
    → get_elem? rows k ≡ some row
    → is_shown rows k ≡ row.shown
is_shown-get_elem? [] k row e = absurd (cc)
is_shown-get_elem? (r ∷ rows) zero row e = cc
is_shown-get_elem? (r ∷ rows) (suc k) row e = is_shown-get_elem? rows k row e

abbrev pub panel_with : List Row → Results
panel_with rows = record {
  rows = rows;
  no_matches = false;
  searching = false;
  last_match_count = 0;
  last_key = 0;
  repeat_on = false;
}

-- The rows of a script, filtered by the text that its search was for.
abbrev pub rows_for : Site → Job → List Row
rows_for s j =
    (search s.lower s.from_url j.value
      (panel_with (create_results s.results_path (s.files j.file)))).rows

module _ (s : Site) (m : Measures) where
  open_window-results : (b : Box) → (open_window m b).results ≡ b.results
  unfolding open_window
  open_window-results b = ground arith

  open_window_shown : (b : Box) → (open_window m b).results_shown ≡ true
  unfolding open_window
  open_window_shown b = ground arith

  open_window_rest :
      (b : Box)
      → ((open_window m b).pending ≡ b.pending)
        × ((open_window m b).last_search_value ≡ b.last_search_value)
  unfolding open_window
  open_window_rest b = ground arith

  -- Whatever stood in the panel, the script at place `i` fills it with its own rows.
  script_loaded-rows :
      (i : ℕ) (j : Job) (b : Box)
      → get_elem? b.pending i ≡ some j
      → let c = script_loaded s m i b in
        (c.results.rows ≡ rows_for s j)
        × (c.results_shown ≡ true)
        × (c.pending ≡ without i b.pending)
        × (c.last_search_value ≡ b.last_search_value)
  unfolding script_loaded handle_results search
  script_loaded-rows i j b e = rw e (
      let filled = record b {
        pending = without i b.pending;
        search_data = some (s.files j.file);
        results = search s.lower s.from_url j.value (fill s (some (s.files j.file)) b.results);
      } in
      let rest = open_window_rest filled in
      (ap (λ r. r.rows) (open_window-results filled), open_window_shown filled, rest.0, rest.1))

  -- A search, with a text in the field that begins with a letter of the section, does not throw, and
  -- once the script that it asks for has run the panel is open and entry `k` of the script, whose
  -- id spells a name and a tag, is shown exactly if the name begins with the text, trimmed and in
  -- lower case, or the text goes on after the name and spells the beginning of the tag. The name
  -- and the text are made of 16-bit units.
  pub script_loaded-search_now :
      (b : Box) (section : Section) (idx k : ℕ) (f : Found) (name tag : Text)
      → let value = strip_leading b.field_value in
        get_elem? s.sections b.search_index ≡ some section
        → text_eq value [] ≡ false
        → index_of (idx_char s value) section.content ≡ some idx
        → get_elem? (s.files (file_name s section idx)) k ≡ some f
        → s.lower (codes "SR_" ++ f.id) ≡ codes "sr_" ++ (convert_to_id name ++ tag)
        → All IsUnit name
        → All IsUnit (s.lower (strip_trailing value))
        → let typed = s.lower (strip_trailing value) in
          (asked : Box) × (search_now s m b ≡ returned asked)
          × let c = script_loaded s m (length b.pending) asked in
            (is_shown c.results.rows k ≡ (starts_with typed name || spills typed name tag))
            × (c.results_shown ≡ true)
            × (c.pending ≡ b.pending)
            × (c.last_search_value ≡ value)
  unfolding search_now
  script_loaded-search_now b section idx k f name tag here filled at entry spelt u v =
      let value = strip_leading b.field_value in
      let j : Job = record { file = file_name s section idx; value = value } in
      let asked : Box = record b {
        key_timer = false;
        pending = b.pending ++ j ∷ [];
        last_search_value = value;
      } in
      let loaded = script_loaded-rows (length b.pending) j asked (get_elem?-last b.pending j) in
      let rows = create_results s.results_path (s.files j.file) in
      let (row, e, id) = get_elem?-create_results s.results_path (s.files j.file) k f entry in
      let trimmed = strip_leading_idem b.field_value in
      let found =
        search-shown s.lower s.from_url value (panel_with rows) k row name tag filled e
          (ap s.lower id ∙ spelt) u (rw trimmed v) in
      (
        asked,
        simp (here, at),
        (
          ap (λ r. is_shown r k) loaded.0
              ∙ is_shown-get_elem? (rows_for s j) k _ found
              ∙ ap
                  (λ t.
                    starts_with (s.lower (strip_trailing t)) name
                    || spills (s.lower (strip_trailing t)) name tag)
                  trimmed,
          loaded.1,
          loaded.2 ∙ without-last b.pending j,
          loaded.3,
        ),
      )

-- Two searches wait for their scripts. If the first one's script arrives last, the panel ends with
-- the rows of the first search, although the last search value is still that of the second; in the
-- order of the searches it ends with the rows of the second.
pub script_loaded_order :
    (s : Site) (m n : Measures) (first second : Job) (b : Box)
    → b.pending ≡ first ∷ second ∷ []
    → b.last_search_value ≡ second.value
    → let swapped = script_loaded s n 0 (script_loaded s m 1 b) in
      let in_order = script_loaded s n 0 (script_loaded s m 0 b) in
      (swapped.results.rows ≡ rows_for s first)
      × (swapped.last_search_value ≡ second.value)
      × (in_order.results.rows ≡ rows_for s second)
      × (in_order.last_search_value ≡ second.value)
script_loaded_order s m n first second b two last =
    let (_, _, left, kept) = script_loaded-rows s m 1 second b (ap (λ p. get_elem? p 1) two) in
    let (_, _, left', kept') = script_loaded-rows s m 0 first b (ap (λ p. get_elem? p 0) two) in
    let swapped =
      script_loaded-rows s n 0 first (script_loaded s m 1 b)
        (ap (λ p. get_elem? p 0) (left ∙ ap (without 1) two)) in
    let in_order =
      script_loaded-rows s n 0 second (script_loaded s m 0 b)
        (ap (λ p. get_elem? p 0) (left' ∙ ap (without 0) two)) in
    (swapped.0, swapped.3 ∙ kept ∙ last, in_order.0, in_order.3 ∙ kept' ∙ last)

at_least : (x : ℤ) → pos 10 ≤ℤ (if ltb_ℤ x (pos 10) then pos 10 else x)
at_least x = elim (Bool-cases (ltb_ℤ x (pos 10))) [
  | inl e ↦ rw e (omega int_laws)
  | inr e ↦ rw e (grind int_laws)
]

abbrev cut : ℤ → ℤ → ℤ → ℤ
cut size start body = if ltb_ℤ body (size +ℤ start +ℤ pos 8) then body -ℤ start -ℤ pos 8 else size

cut_bounds :
    (size start body : ℤ)
    → (cut size start body ≤ℤ size) × (start +ℤ cut size start body +ℤ pos 8 ≤ℤ body)
cut_bounds size start body = elim (Bool-cases (ltb_ℤ body (size +ℤ start +ℤ pos 8))) [
  | inl e ↦ rw e (grind int_laws, omega int_laws)
  | inr e ↦ rw e (omega int_laws, grind int_laws)
]

-- The window starts at 10 pixels or more, is at most 300 wide and 400 high, and ends 8 pixels or
-- more before the right and the lower edge of the page.
pub place_window_bounds :
    (m : Measures)
    → let w = place_window m in
      (pos 10 ≤ℤ w.left)
      × (w.width ≤ℤ pos 300)
      × (w.height ≤ℤ pos 400)
      × (w.left +ℤ w.width +ℤ pos 8 ≤ℤ m.body_width)
      × (w.top +ℤ w.height +ℤ pos 8 ≤ℤ m.body_height)
unfolding place_window
place_window_bounds m =
    let across = cut_bounds (pos 300) (place_window m).left m.body_width in
    let down = cut_bounds (pos 400) (place_window m).top m.body_height in
    (at_least (m.box_x +ℤ pos 150 -ℤ m.results_width), across.0, down.0, across.1, down.1)
