-- ===== src/Search/Box/Invariant.antt =====
-- docs/search/search.js, `SearchBox`: what every run of its handlers keeps, and when one throws.
use async_fw.Base.{
  ℕ, zero, suc, ◌+◌, ◌-◌, ◌≤◌, ◌≡◌, refl, Bool, true, false, ◌&&◌, ◌||◌, not, none, some, List, [],
  ◌∷◌, ◌++◌, ◌==◌, ltb, All, get_elem?, length, arith, Bool-cases, Option-cases, inl, inr, subst,
}
use async_fw.Base.Text.{Text, codes, index_of}
use async_fw.Search.Results.{strip_leading}
use async_fw.Search.Box.{
  Section, Site, Job, Box, activate, close_results_window, close_selection_window,
  on_search_select_show, on_search_select_hide, select_item_count, select_item_set, is_empty,
  strip_spaces,
}
use async_fw.Search.Box.Run.{
  Measures, open_window, handle_results, idx_char, file_name, Ran, returned, thrown, search_now,
  start_search, without, script_loaded, on_select_item, on_search_select_key, hide_results,
  value_changed, on_search_field_change, on_select_field_key, Event, typed, field_key, focused,
  key_timer_fired, hide_timer_fired, select_entered, select_left, closed, item_clicked, select_key,
  select_field_key, loaded, step, state_of, run, after,
}

-- The script is one of the site's sections, at a letter that the text begins with.
pub record IsAsked (s : Site) (j : Job) : Type 0 where
  pub section : Section
  pub number : ℕ
  pub idx : ℕ
  pub listed : get_elem? s.sections number ≡ some section
  pub at : index_of (idx_char s j.value) section.content ≡ some idx
  pub named : j.file ≡ file_name s section idx

pub record IsValid (s : Site) (b : Box) : Type 0 where
  pub index_bound : b.search_index ≤ length s.sections
  pub close_with_results : b.close_shown ≡ b.results_shown
  pub asked : All (IsAsked s) b.pending

get_elem?-none : {A : Type 0} (xs : List A) (i : ℕ) → get_elem? xs i ≡ none → length xs ≤ i
get_elem?-none [] i e = omega arith
get_elem?-none (x ∷ xs) zero e = absurd (cc)
get_elem?-none (x ∷ xs) (suc i) e = omega (arith, get_elem?-none xs i e)

get_elem?-past : {A : Type 0} (xs : List A) (i : ℕ) → length xs ≤ i → get_elem? xs i ≡ none
get_elem?-past [] i h = refl
get_elem?-past (x ∷ xs) zero h = absurd (omega arith)
get_elem?-past (x ∷ xs) (suc i) h = get_elem?-past xs i (omega arith)

module _ {A : Type 0} (P : A → Type 0) where
  All-snoc : (xs : List A) (x : A) → All P xs → P x → All P (xs ++ x ∷ [])
  All-snoc [] x h p = (p, tt)
  All-snoc (y ∷ xs) x h p = (h.0, All-snoc xs x h.1 p)

  All-without : (i : ℕ) (xs : List A) → All P xs → All P (without i xs)
  All-without i [] h = tt
  All-without zero (x ∷ xs) h = h.1
  All-without (suc i) (x ∷ xs) h = (h.0, All-without i xs h.1)

module _ (s : Site) (m : Measures) {b : Box} where
  activate-IsValid : (on : Bool) → IsValid s b → IsValid s (activate on b)
  unfolding activate
  activate-IsValid on v = ground arith

  handle_results-IsValid : (text : Text) → IsValid s b → IsValid s (handle_results s m text b)
  unfolding handle_results open_window
  handle_results-IsValid text v = ground arith

  value_changed-IsValid : IsValid s b → IsValid s (value_changed b)
  unfolding value_changed
  value_changed-IsValid v = ground arith

  hide_results-IsValid : IsValid s b → IsValid s (hide_results b)
  hide_results-IsValid v = ground arith

-- How a handler ends: valid, and past the last section if it throws.
abbrev pub Ends : Site → Ran → Type 0
Ends s (returned c) = IsValid s c
Ends s (thrown c) = IsValid s c × (c.search_index ≡ length s.sections)

module _ (s : Site) (m : Measures) {b : Box} where
  start_search-IsValid :
      (number : ℕ) (section : Section) (value : Text)
      → get_elem? s.sections number ≡ some section
      → IsValid s b
      → IsValid s (start_search s m section value (index_of (idx_char s value) section.content) b)
  unfolding start_search
  start_search-IsValid number section value e v =
      elim (Option-cases (index_of (idx_char s value) section.content)) [
        | inl f ↦ rw f (
            let h = handle_results-IsValid s m (codes "====") v in
            record {
              index_bound = h.index_bound;
              close_with_results = h.close_with_results;
              asked = h.asked;
            })
        | inr (idx, f) ↦ rw f (record {
          index_bound = v.index_bound;
          close_with_results = v.close_with_results;
          asked = All-snoc (IsAsked s) b.pending _ v.asked (record {
            section = section;
            number = number;
            idx = idx;
            listed = e;
            at = f;
            named = refl;
          });
        })
      ]

closed-IsValid :
    {s : Site} {b : Box}
    → IsValid s b
    → IsValid s (record b { results_shown = false; close_shown = false })
closed-IsValid v = ground arith

without_timer : {s : Site} {b : Box} → IsValid s b → IsValid s (record b { key_timer = false })
without_timer v = ground arith

module _ (s : Site) (m : Measures) {b : Box} where
  search_now-Ends : IsValid s b → Ends s (search_now s m b)
  unfolding search_now
  search_now-Ends v = elim (Option-cases (get_elem? s.sections b.search_index)) [
    | inl e ↦
        let ge = get_elem?-none s.sections b.search_index e in
        rw e (without_timer v, let bound = v.index_bound in omega arith)
    | inr (section, e) ↦ rw e (
        start_search-IsValid s m b.search_index section (strip_leading b.field_value) e
          (without_timer v))
  ]

  select_item_set-IsValid :
      (id : ℕ)
      → id ≤ length s.sections
      → IsValid s b
      → IsValid s (select_item_set s id (record b { search_index = id }))
  unfolding select_item_set
  select_item_set-IsValid id le v = record {
    index_bound = le;
    close_with_results = v.close_with_results;
    asked = v.asked;
  }

  script_loaded-IsValid : (i : ℕ) → IsValid s b → IsValid s (script_loaded s m i b)
  unfolding script_loaded
  script_loaded-IsValid i v = elim (Option-cases (get_elem? b.pending i)) [
    | inl e ↦ rw e v
    | inr (j, e) ↦ rw e (
        handle_results-IsValid s m j.value (record {
          index_bound = v.index_bound;
          close_with_results = v.close_with_results;
          asked = All-without (IsAsked s) i b.pending v.asked;
        }))
  ]

closed_selection-Ends : (s : Site) (r : Ran) → Ends s r → Ends s (after close_selection_window r)
unfolding close_selection_window
closed_selection-Ends s (returned c) h = record {
  index_bound = h.index_bound;
  close_with_results = h.close_with_results;
  asked = h.asked;
}
closed_selection-Ends s (thrown c) h = h

module _ (s : Site) (m : Measures) {b : Box} where
  on_select_item-Ends :
      (id : ℕ) → id ≤ length s.sections → IsValid s b → Ends s (on_select_item s m id b)
  unfolding on_select_item
  on_select_item-Ends id le v =
      let c = select_item_set s id (record b { search_index = id }) in
      let chosen = select_item_set-IsValid s m id le v in
      elim (Bool-cases (not (is_empty (strip_spaces c.field_value)) && c.search_active)) [
        | inl e ↦ rw e (search_now-Ends s m chosen)
        | inr e ↦ rw e chosen
      ]

  on_search_select_key-Ends : (code : ℕ) → IsValid s b → Ends s (on_search_select_key s m code b)
  unfolding on_search_select_key
  on_search_select_key-Ends code v =
      elim (Bool-cases (code == 40 && ltb b.search_index (select_item_count s))) [
        | inl e ↦ rw e (on_select_item-Ends (b.search_index + 1) (ground arith) v)
        | inr e ↦ rw e (elim (Bool-cases (code == 38 && ltb 0 b.search_index)) [
          | inl f ↦
              let bound = v.index_bound in
              rw f (on_select_item-Ends (b.search_index - 1) (omega arith) v)
          | inr f ↦ rw f (elim (Bool-cases (code == 13 || code == 27)) [
            | inl g ↦
                rw g
                  (closed_selection-Ends s _ (on_select_item-Ends b.search_index v.index_bound v))
            | inr g ↦ rw g v
          ])
        ])
      ]

  on_search_field_change-IsValid :
      (code : ℕ) (shift : Bool) → IsValid s b → IsValid s (on_search_field_change code shift b)
  unfolding on_search_field_change on_search_select_show
  on_search_field_change-IsValid code shift v =
      let c = without_timer v in
      ground (
        arith,
        value_changed-IsValid s m c,
        activate-IsValid s m false (hide_results-IsValid s m c),
      )

  -- Every event keeps the state valid, and its handler throws only past the last section.
  step-Ends : (e : Event) → IsValid s b → Ends s (step s m e b)
  unfolding step close_selection_window on_search_select_show on_search_select_hide
      close_results_window on_select_field_key
  step-Ends (typed t) v = ground arith
  step-Ends (field_key code shift) v = on_search_field_change-IsValid code shift v
  step-Ends (focused on) v = activate-IsValid s m on v
  step-Ends key_timer_fired v = search_now-Ends s m v
  step-Ends hide_timer_fired v = ground arith
  step-Ends select_entered v = ground arith
  step-Ends select_left v = ground arith
  step-Ends closed v = activate-IsValid s m false (closed-IsValid v)
  step-Ends (item_clicked id) v = elim (Bool-cases (ltb id (select_item_count s))) [
    | inl e ↦ rw e (on_select_item-Ends id (ground arith) v)
    | inr e ↦ rw e v
  ]
  step-Ends (select_key code) v = on_search_select_key-Ends code v
  step-Ends (select_field_key code) v = ground arith
  step-Ends (loaded i) v = script_loaded-IsValid s m i v

state_of-IsValid : (s : Site) (r : Ran) → Ends s r → IsValid s (state_of r)
state_of-IsValid s (returned c) h = h
state_of-IsValid s (thrown c) h = h.0

-- Over any run of events the chosen index is at most the number of sections, the close button is
-- there exactly when the results are, and every script that is awaited belongs to a section, at a
-- place of the letter that its text begins with.
pub run-IsValid_box :
    (s : Site) (es : List (Measures × Event)) {b : Box} → IsValid s b → IsValid s (run s es b)
unfolding run
run-IsValid_box s [] v = v
run-IsValid_box s ((m, e) ∷ es) {b} v =
    run-IsValid_box s es (state_of-IsValid s (step s m e b) (step-Ends s m e v))

-- In a state that a run reaches from a valid one, a handler throws only with the chosen index past
-- the last section.
pub step_thrown :
    (s : Site) (es : List (Measures × Event)) (m : Measures) (e : Event) (b c : Box)
    → IsValid s b
    → step s m e (run s es b) ≡ thrown c
    → c.search_index ≡ length s.sections
step_thrown s es m e b c v t = (subst (Ends s) t (step-Ends s m e (run-IsValid_box s es v))).1

-- With the last section chosen, a text in the field and the search active, the Down key chooses an
-- index past the sections, and the handler throws.
pub select_key_down_thrown :
    (s : Site) (m : Measures) (b : Box)
    → b.search_index + 1 ≡ length s.sections
    → is_empty (strip_spaces b.field_value) ≡ false
    → b.search_active ≡ true
    → (c : Box) × (on_search_select_key s m 40 b ≡ thrown c)
      × (c.search_index ≡ length s.sections)
      × (c.settings ≡ b.settings)
unfolding on_search_select_key on_select_item select_item_set search_now
select_key_down_thrown s m b last text active =
    let below : ltb b.search_index (length s.sections) ≡ true = ground arith in
    let gone = get_elem?-past s.sections (b.search_index + 1) (omega arith) in
    (
      record (select_item_set s (b.search_index + 1)
          (record b { search_index = b.search_index + 1 })) { key_timer = false },
      simp (below, text, active, gone),
      last,
      rw gone refl,
    )
