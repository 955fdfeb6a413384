-- ===== src/Search/Box/Sections.antt =====
-- docs/search/search.js, `SelectItemSet`, `GetSelectionIdByName` and `init_search`: the section that
-- a visitor chose is chosen again on the next page.
use mathlib.Core.Option.{some-injective}
use async_fw.Base.{
  ℕ, zero, suc, ◌+◌, ◌<◌, ◌≡◌, refl, ◌∙◌, true, false, ◌&&◌, not, some, List, [], ◌∷◌, get_elem?,
  ◌==◌, length, arith, Bool-cases, Option-cases, inl, inr,
}
use async_fw.Base.Int.{pos}
use async_fw.Base.Text.{Text, codes, text_eq, text_eq_refl, index_of}
use async_fw.Cookie.{key, truthy, read_setting, write_setting}
use async_fw.Cookie.Jar.{get_item}
use async_fw.Cookie.Laws.{read_setting-write_setting}
use async_fw.Search.Results.{strip_leading}
use async_fw.Search.Box.{
  Section, Site, Box, search_cookie_name, select_item_set, get_selection_id_by_name, id_by_name,
  is_empty, strip_spaces, marks_for, all_off,
}
use async_fw.Search.Box.Run.{
  Measures, idx_char, search_now, on_select_item, init_search, state_of, start_search,
  handle_results, open_window,
}

-- No section before `id` has this label.
abbrev pub IsNewLabel : List Section → ℕ → Text → Type 0
IsNewLabel [] id label = Unit
IsNewLabel (x ∷ xs) zero label = Unit
IsNewLabel (x ∷ xs) (suc id) label = (text_eq x.label label ≡ false) × IsNewLabel xs id label

id_by_name-label :
    (xs : List Section) (id j : ℕ) (x : Section)
    → get_elem? xs id ≡ some x
    → IsNewLabel xs id x.label
    → id_by_name x.label xs j ≡ j + id
unfolding id_by_name
id_by_name-label [] id j x e d = absurd (cc)
id_by_name-label (y ∷ ys) zero j x e d =
    let same : y ≡ x = some-injective y x e in
    let here : text_eq y.label x.label ≡ true = rw same (text_eq_refl x.label) in
    rw here (omega arith)
id_by_name-label (y ∷ ys) (suc id) j x e d =
    let ih = id_by_name-label ys id (suc j) x e d.1 in rw d.0 (omega arith)

get_elem?-all_off :
    (i : ℕ) (xs : List Section) → i < length xs → get_elem? (all_off xs) i ≡ some false
get_elem?-all_off i [] h = absurd (omega arith)
get_elem?-all_off zero (x ∷ xs) h = refl
get_elem?-all_off (suc i) (x ∷ xs) h = get_elem?-all_off i xs (omega arith)

get_elem?-marks_for :
    (id i : ℕ) (xs : List Section) → i < length xs → get_elem? (marks_for id xs) i ≡ some (id == i)
unfolding marks_for
get_elem?-marks_for id i [] h = absurd (omega arith)
get_elem?-marks_for zero zero (x ∷ xs) h = refl
get_elem?-marks_for zero (suc i) (x ∷ xs) h = get_elem?-all_off i xs (omega arith) ∙ ground arith
get_elem?-marks_for (suc id) zero (x ∷ xs) h = ground arith
get_elem?-marks_for (suc id) (suc i) (x ∷ xs) h =
    rw (get_elem?-marks_for id i xs (omega arith)) (ground arith)

-- What `GetSelectionIdByName` finds under a label that no earlier section has.
get_selection_id_by_name-label :
    (s : Site) (id : ℕ) (x : Section)
    → get_elem? s.sections id ≡ some x
    → IsNewLabel s.sections id x.label
    → get_selection_id_by_name s x.label ≡ id
unfolding get_selection_id_by_name
get_selection_id_by_name-label s id x e d = id_by_name-label s.sections id 0 x e d ∙ omega arith

module _ (s : Site) (m : Measures) where
  -- What a search leaves alone.
  search_now_keeps :
      (b : Box)
      → let c = state_of (search_now s m b) in
        (c.search_index ≡ b.search_index) × (c.marks ≡ b.marks)
  unfolding search_now start_search handle_results open_window
  search_now_keeps b = elim (Option-cases (get_elem? s.sections b.search_index)) [
    | inl e ↦ rw e (refl, refl)
    | inr (x, e) ↦
        rw e (elim (Option-cases (index_of (idx_char s (strip_leading b.field_value)) x.content)) [
          | inl f ↦ rw f (ground arith)
          | inr (i, f) ↦ rw f (refl, refl)
        ])
  ]

  on_select_item_chosen :
      (id : ℕ) (b : Box)
      → let c = state_of (on_select_item s m id b) in
        (c.search_index ≡ id) × (c.marks ≡ marks_for id s.sections)
  unfolding on_select_item select_item_set
  on_select_item_chosen id b =
      let chosen = select_item_set s id (record b { search_index = id }) in
      elim (Bool-cases (not (is_empty (strip_spaces chosen.field_value)) && chosen.search_active)) [
        | inl e ↦ rw e (search_now_keeps chosen)
        | inr e ↦ rw e (refl, refl)
      ]

some_text : (t : Text) → is_empty t ≡ false → truthy (some t) ≡ true
unfolding text_eq
some_text [] h = cc
some_text (a ∷ t) h = refl

-- In Chrome, a section whose label is not empty and stands at no earlier section, once it is
-- chosen and if the choice is not also stored for good, is the one that the next page chooses from
-- the saved settings, whatever else is on that page: its index is the search index, and the bullet
-- stands at it and at no other section `i`.
pub init_search-select_item_set :
    (s : Site) (m : Measures) (id : ℕ) (x : Section) (b page : Box) (i : ℕ)
    → get_elem? s.sections id ≡ some x
    → IsNewLabel s.sections id x.label
    → is_empty x.label ≡ false
    → b.settings.chrome ≡ true
    → truthy (get_item (key search_cookie_name) b.settings.local) ≡ false
    → i < length s.sections
    → let saved = (select_item_set s id b).settings in
      let c = state_of (init_search s m (record page { settings = saved })) in
      (c.search_index ≡ id) × (get_elem? c.marks i ≡ some (id == i))
unfolding init_search select_item_set
init_search-select_item_set s m id x b page i e new filled chrome free lt =
    rw (e, name, get_selection_id_by_name-label s id x e new)
      (let (index, marks) = on_select_item_chosen s m id _ in
        (index, rw marks (get_elem?-marks_for id i s.sections lt)))
  where
    name :
        read_setting search_cookie_name
          (codes "0")
          (write_setting s.date search_cookie_name x.label (pos 0) b.settings)
        ≡ x.label
    name =
        read_setting-write_setting s.date search_cookie_name x.label (codes "0") (pos 0) b.settings
          chrome (some_text x.label filled) (λ _. free)
