-- ===== src/Search/Results.antt =====
-- docs/search/search.js, `SearchResults` and `createResults`: the rows of the results panel, which
-- of them a search shows, and how the keys move among them. `lower` is `toLowerCase`.
pub mod Filter
pub mod Focus
use async_fw.Base.{
  ℕ, zero, suc, ◌+◌, ◌-◌, ◌<◌, ◌≡◌, Bool, true, false, ◌&&◌, ◌||◌, not, Option, none, some, List,
  [], ◌∷◌, ◌++◌, map, if◌then◌else◌, ◌==◌, ltb, leb, length, get_elem?, drop,
}
use async_fw.Base.Text.{Text, codes, text_eq, starts_with}
use async_fw.Search.Encode.{convert_to_id}

-- An entry of `searchData`: `[id, [label, [url, inFrame, scope], ...]]`.
pub record Hit : Type 0 where
  pub url : Text
  pub in_frame : Bool
  pub scope : Text

pub record Found : Type 0 where
  pub id : Text
  pub label : Text
  pub hits : List Hit

pub record Link : Type 0 where
  pub href : Text
  pub target : Text
  pub text : Text

-- The `div` of class `SRChildren`, with `unfolded` for display `block`.
pub record Kids : Type 0 where
  pub unfolded : Bool
  pub links : List Link

-- A `div` of class `SRResult`; its link is the element `Item` of its index.
pub record Row : Type 0 where
  pub id : Text
  pub link : Link
  pub scope : Text
  pub shown : Bool
  pub kids : Option Kids

-- `setAttribute('href', …)`: an absolute url stays, another one is taken from the results' folder.
abbrev pub href_of : Text → Text → Text
href_of path url =
    if starts_with (codes "http://") url || starts_with (codes "https://") url
    then url
    else path ++ url

abbrev target_of : Bool → Text
target_of in_frame = if in_frame then codes "_parent" else codes "_blank"

hit_link : Text → Hit → Link
hit_link path h = record {
  href = href_of path h.url;
  target = target_of h.in_frame;
  text = h.scope;
}

hit_links : Text → List Hit → List Link
unfolding hit_link
hit_links path [] = []
hit_links path (h ∷ hs) = hit_link path h ∷ hit_links path hs

toggle_href : Text → Text
toggle_href id = codes "javascript:searchResults.Toggle(\"SR_" ++ (id ++ codes "\")")

-- One hit makes a plain row, any other number a row with children.
row_of : Text → Found → List Hit → Row
unfolding hit_links toggle_href
row_of path f (h ∷ []) = record {
  id = codes "SR_" ++ f.id;
  link = record { href = href_of path h.url; target = target_of h.in_frame; text = f.label };
  scope = h.scope;
  shown = false;
  kids = none;
}
row_of path f hs = record {
  id = codes "SR_" ++ f.id;
  link = record { href = toggle_href f.id; target = []; text = f.label };
  scope = [];
  shown = false;
  kids = some (record { unfolded = false; links = hit_links path hs });
}

unfoldable pub create_results : Text → List Found → List Row
unfolding row_of
create_results path [] = []
create_results path (f ∷ fs) = row_of path f f.hits ∷ create_results path fs

-- `this` and the parts of the panel that the methods write.
pub record Results : Type 0 where
  pub rows : List Row
  pub no_matches : Bool
  pub searching : Bool
  pub last_match_count : ℕ
  pub last_key : ℕ
  pub repeat_on : Bool

unfoldable pub strip_leading : Text → Text
strip_leading [] = []
strip_leading (c ∷ t) = if c == b' ' then strip_leading t else c ∷ t

-- `search.replace(/ +$/, "")`
unfoldable pub strip_trailing : Text → Text
strip_trailing [] = []
strip_trailing (c ∷ t) = elim (strip_trailing t) [
  | [] ↦ if c == b' ' then [] else c ∷ []
  | x ∷ r ↦ c ∷ x ∷ r
]

abbrev is_digit : ℕ → Bool
is_digit c = leb b'0' c && leb c b'9'

-- `replace(/^sr\d*_/, '')` on what follows `sr`; `none` if it does not match.
after_number : Text → Option Text
after_number [] = none
after_number (c ∷ t) = if is_digit c then after_number t else if c == b'_' then some t else none

unfoldable pub strip_sr : Text → Text
unfolding after_number
strip_sr (a ∷ b ∷ t) =
    if a == b's' && b == b'r'
    then elim (after_number t) [ none ↦ a ∷ b ∷ t | some r ↦ r ]
    else a ∷ b ∷ t
strip_sr t = t

module _ (lower : Text → Text) where
  -- What the search text is compared with, and what it is compared as.
  abbrev pub match_name : Row → Text
  match_name row = strip_sr (lower row.id)

  unfoldable pub search_key : Text → Text
  search_key search = convert_to_id (lower (strip_trailing (strip_leading search)))

  -- The loop over the rows, with `matches` so far.
  filter_rows : Text → List Row → ℕ → List Row × ℕ
  filter_rows key [] matches = ([], matches)
  filter_rows key (row ∷ rows) matches =
      let begins = starts_with key (match_name row) in
      let after = filter_rows key rows (if begins then suc matches else matches) in
      (record row { shown = begins } ∷ after.0, after.1)

-- `from_url` is the search text of the address, which an empty argument stands for.
unfoldable pub search : (Text → Text) → Text → Text → Results → Results
unfolding filter_rows search_key strip_sr
search lower from_url text r =
    let used = (if text_eq text [] then from_url else text) in
    let (rows, matches) = filter_rows lower (search_key lower used) r.rows 0 in
    record r {
      rows = rows;
      searching = false;
      no_matches = matches == 0;
      last_match_count = matches;
    }

-- `NavNext`: from the rows that are left, the first shown one; `index` counts on.
next_from : List Row → ℕ → Option ℕ
next_from [] index = none
next_from (row ∷ rows) index =
    let rest = next_from rows (suc index) in if row.shown then some index else rest

unfoldable pub nav_next : List Row → ℕ → Option ℕ
unfolding next_from
nav_next rows index = next_from (drop index rows) index

abbrev pub prev_at : Option Row → ℕ → Option ℕ → Option ℕ
prev_at none i rest = none
prev_at (some row) i rest = if row.shown then some i else rest

-- `NavPrev(n - 1)`: there is no element `Item-1`, and a missing element ends the loop.
unfoldable pub nav_prev : List Row → ℕ → Option ℕ
nav_prev rows zero = none
nav_prev rows (suc i) = prev_at (get_elem? rows i) i (nav_prev rows i)
