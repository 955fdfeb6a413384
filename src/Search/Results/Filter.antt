-- ===== src/Search/Results/Filter.antt =====
-- docs/search/search.js, `Search`: which rows are shown.
use mathlib.Core.Option.{some-injective}
use async_fw.Base.{
  ℕ, zero, suc, ◌≡◌, refl, ◌↔◌, true, false, some, List, [], ◌∷◌, ◌++◌, ◌||◌, ◌+◌, if◌then◌else◌,
  Bool-cases, inl, inr, sym, All, get_elem?, length, arith, ap, ◌∙◌, ==_iff,
}
use native.Mathlib.Nat.{add-zero}
use async_fw.Base.Text.{Text, codes, text_eq, starts_with}
use async_fw.Search.Encode.{convert_to_id}
use async_fw.Search.Encode.Laws.{IsUnit, spills, starts_with-convert_to_id}
use async_fw.Search.Results.{
  Hit, Found, row_of, create_results, Row, Results, match_name, strip_sr, search_key, filter_rows,
  search, strip_leading, strip_trailing,
}

module _ (lower : Text → Text) where
  get_elem?-filter_rows :
      (key : Text) (rows : List Row) (matches i : ℕ) (row : Row)
      → get_elem? rows i ≡ some row
      → get_elem? (filter_rows lower key rows matches).0 i
        ≡ some (record row { shown = starts_with key (match_name lower row) })
  unfolding filter_rows
  get_elem?-filter_rows key [] n i row e = absurd (cc)
  get_elem?-filter_rows key (r ∷ rows) n zero row e = cc
  get_elem?-filter_rows key (r ∷ rows) n (suc i) row e = get_elem?-filter_rows key rows _ i row e

  -- A row whose id spells a name and then a tag is shown exactly if the name begins with the search
  -- text, trimmed and in lower case, or if the search text goes on after the name and the spelling of
  -- what goes on begins the tag; nothing else of the row changes. The units are of 16 bits.
  pub search-shown :
      (from_url text : Text) (r : Results) (i : ℕ) (row : Row) (name tag : Text)
      → text_eq text [] ≡ false
      → get_elem? r.rows i ≡ some row
      → lower row.id ≡ codes "sr_" ++ (convert_to_id name ++ tag)
      → All IsUnit name
      → All IsUnit (lower (strip_trailing (strip_leading text)))
      → let typed = lower (strip_trailing (strip_leading text)) in
        get_elem? (search lower from_url text r).rows i
        ≡ some (record row { shown = starts_with typed name || spills typed name tag })
  unfolding search
  search-shown from_url text r i row name tag ne e spelt u v = rw ne (
      get_elem?-filter_rows (search_key lower text) r.rows 0 i row e
      ∙ ap (λ b. some (record row { shown = b })) begins)
    where
      id_name : match_name lower row ≡ convert_to_id name ++ tag
      id_name = rw spelt (unfold strip_sr in refl)

      begins : starts_with (search_key lower text) (match_name lower row) ≡ (
          starts_with (lower (strip_trailing (strip_leading text))) name
          || spills (lower (strip_trailing (strip_leading text))) name tag)
      begins = rw id_name (unfold search_key in starts_with-convert_to_id _ name tag v u)

row_of_id : (path : Text) (f : Found) (hs : List Hit) → (row_of path f hs).id ≡ codes "SR_" ++ f.id
unfolding row_of
row_of_id path f [] = refl
row_of_id path f (h ∷ []) = refl
row_of_id path f (h ∷ g ∷ hs) = refl

-- Entry `k` of a script has row `k`.
pub get_elem?-create_results :
    (path : Text) (fs : List Found) (k : ℕ) (f : Found)
    → get_elem? fs k ≡ some f
    → (row : Row) × (get_elem? (create_results path fs) k ≡ some row)
      × (row.id ≡ codes "SR_" ++ f.id)
unfolding create_results
get_elem?-create_results path [] k f e = absurd (cc)
get_elem?-create_results path (g ∷ fs) zero f e = (
  row_of path g g.hits,
  refl,
  row_of_id path g g.hits ∙ ap (λ h. codes "SR_" ++ h.id) (some-injective g f e),
)
get_elem?-create_results path (g ∷ fs) (suc k) f e = get_elem?-create_results path fs k f e

abbrev pub count_shown : List Row → ℕ
count_shown [] = 0
count_shown (row ∷ rows) = (if row.shown then 1 else 0) + count_shown rows

length-filter_rows :
    (lower : Text → Text) (key : Text) (rows : List Row) (matches : ℕ)
    → length (filter_rows lower key rows matches).0 ≡ length rows
unfolding filter_rows
length-filter_rows lower key [] n = refl
length-filter_rows lower key (row ∷ rows) n = ap suc (length-filter_rows lower key rows _)

-- The loop counts on by the rows that it shows.
filter_rows_count :
    (lower : Text → Text) (key : Text) (rows : List Row) (matches : ℕ)
    → let after = filter_rows lower key rows matches in after.1 ≡ count_shown after.0 + matches
unfolding filter_rows
filter_rows_count lower key [] n = omega arith
filter_rows_count lower key (row ∷ rows) n =
    let counted = filter_rows_count lower key rows in
    elim (Bool-cases (starts_with key (match_name lower row))) [
      | inl shown ↦ rw shown (counted (suc n) ∙ omega arith)
      | inr hidden ↦ rw hidden (counted n ∙ omega arith)
    ]

hidden-of_count : (rows : List Row) → count_shown rows ≡ 0 → All (λ row. row.shown ≡ false) rows
hidden-of_count [] e = tt
hidden-of_count (row ∷ rows) e = (ground arith, hidden-of_count rows (omega arith))

count-of_hidden : (rows : List Row) → All (λ row. row.shown ≡ false) rows → count_shown rows ≡ 0
count-of_hidden [] h = refl
count-of_hidden (row ∷ rows) h = ground (arith, count-of_hidden rows h.1)

-- After a search the counter that the loop raises is the number of rows shown, the message that
-- there are no matches stands exactly if no row is shown, and there are as many rows as before.
pub search-count :
    (lower : Text → Text) (from_url text : Text) (r : Results)
    → let r' = search lower from_url text r in
      (r'.last_match_count ≡ count_shown r'.rows)
      × ((r'.no_matches ≡ true) ↔ All (λ row. row.shown ≡ false) r'.rows)
      × (length r'.rows ≡ length r.rows)
unfolding search
search-count lower from_url text r =
    let rows = (search lower from_url text r).rows in
    let counted = filter_rows_count lower _ r.rows 0 ∙ add-zero (count_shown rows) in
    (
      counted,
      (
        λ e. hidden-of_count rows (sym counted ∙ (==_iff _ 0).0 e),
        λ h. (==_iff _ 0).1 (counted ∙ count-of_hidden rows h),
      ),
      length-filter_rows lower _ r.rows 0,
    )
