-- ===== src/Search/Scripts/Shown.antt =====
-- docs/search: from a text that begins the name of an entry to the entry's row, on the site's data.
use async_fw.Base.{
  ℕ, ◌<◌, ◌≡◌, refl, sym, ap, ◌∙◌, subst, true, false, Option, none, some, List, [], ◌∷◌, ◌++◌, map,
  if◌then◌else◌, ◌==◌, ltb, All, all, get_elem?, length, take, arith, Bool-cases, inl, inr, ==_iff,
  &&_parts,
}
use async_fw.Base.Text.{Text, codes, text_eq, text_eq→eq, starts_with, index_of}
use async_fw.Search.Encode.{convert_to_id}
use async_fw.Search.Encode.Laws.{IsUnit}
use async_fw.Search.Results.{Found, strip_leading, strip_trailing}
use async_fw.Search.Results.Focus.{is_shown}
use async_fw.Search.Box.{Section, Box}
use async_fw.Search.Box.Run.{Measures, idx_char, file_name, returned, search_now, script_loaded}
use async_fw.Search.Box.Laws.{script_loaded-search_now}
use async_fw.Search.Scripts.{site_sections, site_results, find_entries, entries_or, site_of}
use async_fw.Search.Scripts.Names.{lower_char, entry_name, entry_tag, entry_ok, entry_ok-at, is_at}

abbrev pub IsAscii : ℕ → Type 0
IsAscii c = c < 128

-- `toLowerCase` on ASCII.
abbrev pub LowersAscii : (Text → Text) → Type 0
LowersAscii lower = (t : Text) → All IsAscii t → lower t ≡ map lower_char t

IsAscii-of_all : (t : Text) → all (λ c. ltb c 128) t ≡ true → All IsAscii t
IsAscii-of_all [] h = tt
IsAscii-of_all (c ∷ t) h = (ground arith, IsAscii-of_all t (ground arith))

map-lower_char-IsUnit : (t : Text) → All IsAscii t → All IsUnit (map lower_char t)
map-lower_char-IsUnit [] h = tt
map-lower_char-IsUnit (c ∷ t) h = (ground arith, map-lower_char-IsUnit t h.1)

All-strip_trailing : (P : ℕ → Type 0) (t : Text) → All P t → All P (strip_trailing t)
unfolding strip_trailing
All-strip_trailing P [] h = tt
All-strip_trailing P (c ∷ t) h = by_rest (strip_trailing t) (All-strip_trailing P t h.1)
  where
    by_rest :
        (r : Text)
        → All P r
        → All P (elim r [ [] ↦ if c == b' ' then [] else c ∷ [] | x ∷ r' ↦ c ∷ x ∷ r' ])
    by_rest [] k = elim (Bool-cases (c == b' ')) [ inl e ↦ rw e tt | inr e ↦ rw e (h.0, tt) ]
    by_rest (x ∷ r') k = (h.0, k)

-- What a trimmed text begins with.
strip_trailing-strip_leading :
    (t : Text)
    → text_eq (strip_leading t) [] ≡ false
    → (c : ℕ) × (u r : Text) × (strip_leading t ≡ c ∷ u)
      × (strip_trailing (strip_leading t) ≡ c ∷ r)
unfolding strip_leading strip_trailing text_eq
strip_trailing-strip_leading [] h = absurd (cc)
strip_trailing-strip_leading (c ∷ t) h = elim (Bool-cases (c == b' ')) [
  | inl e ↦ rw e (strip_trailing-strip_leading t (rw e at h))
  | inr e ↦ rw e (by_rest e (strip_trailing t))
]
  where
    by_rest :
        (c == b' ') ≡ false
        → (q : Text)
        → (d : ℕ) × (u r : Text) × (c ∷ t ≡ d ∷ u)
          × (elim q [ [] ↦ if c == b' ' then [] else c ∷ [] | x ∷ r' ↦ c ∷ x ∷ r' ] ≡ d ∷ r)
    by_rest e [] = (c, t, [], refl, rw e refl)
    by_rest e (x ∷ r') = (c, t, x ∷ r', refl, refl)

take-starts_with : (c : ℕ) (s t : Text) → starts_with (c ∷ s) t ≡ true → take 1 t ≡ c ∷ []
unfolding starts_with
take-starts_with c s [] h = cc
take-starts_with c s (d ∷ t) h = ground arith

is_at-some : (idx : ℕ) (o : Option ℕ) → is_at idx o ≡ true → o ≡ some idx
is_at-some idx none h = cc
is_at-some idx (some i) h = ap some ((==_iff i idx).0 h)

-- What an entry in order gives.
entry_ok-parts :
    (content : Text) (idx : ℕ) (f : Found)
    → entry_ok content idx f ≡ true
    → (map lower_char (codes "SR_" ++ f.id)
        ≡ codes "sr_" ++ (convert_to_id (entry_name f) ++ entry_tag f))
      × All IsAscii f.id
      × All IsAscii (entry_name f)
      × (index_of (take 1 (entry_name f)) content ≡ some idx)
unfolding entry_ok
entry_ok-parts content idx f h =
    let (spelt, h1) = &&_parts _ _ h in
    let (id, h2) = &&_parts _ _ h1 in
    let (name, place) = &&_parts _ _ h2 in
    (
      text_eq→eq _ _ spelt,
      IsAscii-of_all f.id id,
      IsAscii-of_all (entry_name f) name,
      is_at-some idx _ place,
    )

units-of_ascii : (t : Text) → All IsAscii t → All IsUnit t
units-of_ascii [] h = tt
units-of_ascii (c ∷ t) h = (omega arith, units-of_ascii t h.1)

module _ (rest : Text → List Found) (lower : Text → Text) (from_url date : Text)
    (m : Measures) where
  -- On the site of docs/, in a section other than `all` and `functions`, a search for an ASCII text
  -- that the name of an entry of a script of the section begins with, whatever the case of its
  -- letters and the blanks around it, asks for that script, and once the script has run the panel
  -- is open and shows the entry. `lower` lowers ASCII letters, and `rest` stands for the scripts of
  -- the two sections that are left out.
  pub site_entry_shown :
      (b : Box) (x : Section) (idx k : ℕ) (fs : List Found) (f : Found)
      → let site = site_of rest lower from_url date in
        let value = strip_leading b.field_value in
        LowersAscii lower
        → get_elem? site_sections b.search_index ≡ some x
        → idx < length x.content
        → find_entries site_results (file_name site x idx) ≡ some fs
        → get_elem? fs k ≡ some f
        → text_eq value [] ≡ false
        → All IsAscii value
        → starts_with (map lower_char (strip_trailing value)) (entry_name f) ≡ true
        → (asked : Box) × (search_now site m b ≡ returned asked)
          × let c = script_loaded site m (length b.pending) asked in
            (is_shown c.results.rows k ≡ true) × (c.results_shown ≡ true)
  unfolding entry_ok
  site_entry_shown b x idx k fs f low here lt script at filled ascii begins =
      let site = site_of rest lower from_url date in
      let value = strip_leading b.field_value in
      let (spelt, id, name, place) =
        entry_ok-parts x.content idx f
          (entry_ok-at b.search_index idx k x fs f here lt script at) in
      let (c, u, r, starts, trimmed) = strip_trailing-strip_leading b.field_value filled in
      let trimmed_ascii = All-strip_trailing IsAscii value ascii in
      let lowered : lower (strip_trailing value) ≡ map lower_char (strip_trailing value) =
        low (strip_trailing value) trimmed_ascii in
      let one : take 1 (entry_name f) ≡ lower_char c ∷ [] =
        take-starts_with (lower_char c) (map lower_char r) (entry_name f)
          (subst (λ z. starts_with (map lower_char z) (entry_name f) ≡ true) trimmed begins) in
      let letter : idx_char site value ≡ take 1 (entry_name f) =
        ap (λ z. lower (take 1 z)) starts
        ∙ low (c ∷ []) ((subst (All IsAscii) starts ascii).0, tt)
        ∙ sym one in
      let found =
        script_loaded-search_now site m b x idx k f (entry_name f) (entry_tag f) here filled
          (ap (λ z. index_of z x.content) letter ∙ place)
          (ap (λ o. get_elem? (entries_or (rest (file_name site x idx)) o) k) script ∙ at)
          (low (codes "SR_" ++ f.id) (omega arith, (omega arith, (omega arith, id))) ∙ spelt)
          (units-of_ascii (entry_name f) name)
          (rw lowered (map-lower_char-IsUnit (strip_trailing value) trimmed_ascii)) in
      let (asked, done, (shown, opened, _, _)) = found in
      (asked, done, (shown ∙ rw (lowered, begins) refl, opened))
