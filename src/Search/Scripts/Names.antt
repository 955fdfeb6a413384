-- ===== src/Search/Scripts/Names.antt =====
-- docs/search: the entries of the results scripts and the names that they are found by.
use async_fw.Base.{
  ℕ, zero, suc, ◌+◌, ◌*◌, ◌-◌, ◌<◌, ◌≡◌, ◌⊎◌, refl, sym, subst, Bool, true, false, ◌&&◌, Option,
  none, some, List, [], ◌∷◌, ◌++◌, map, if◌then◌else◌, ◌==◌, ltb, leb, all, get_elem?, length, take,
  drop, arith, inl, inr, &&_parts, all-get,
}
use async_fw.Base.Text.{Text, codes, text_eq, index_of, last_index_of}
use async_fw.Search.Encode.{convert_to_id, hex_digit}
use async_fw.Search.Results.{Found}
use async_fw.Search.Box.{Section, Site}
use async_fw.Search.Box.Run.{file_name}
use async_fw.Search.Scripts.{site_sections, site_results, find_entries, site_of}

-- `toLowerCase` of an ASCII code unit.
abbrev pub lower_char : ℕ → ℕ
lower_char c = if leb b'A' c && leb c b'Z' then c + 32 else c

abbrev hex_value : ℕ → ℕ
hex_value c = if leb c b'9' then c - b'0' else c - b'a' + 10

-- The text that an id spells.
decode_id : Text → Text
decode_id [] = []
decode_id (c ∷ []) = c ∷ []
decode_id (c ∷ d ∷ []) = c ∷ d ∷ []
decode_id (c ∷ d ∷ e ∷ t) =
    let coded = (hex_value d * 16 + hex_value e) ∷ decode_id t in
    let plain = c ∷ decode_id (d ∷ e ∷ t) in if c == b'_' then coded else plain

abbrev or_zero : Option ℕ → ℕ
or_zero none = 0
or_zero (some i) = i

-- The name of an entry, which its id spells before the last `_`.
unfoldable pub entry_name : Found → Text
unfolding decode_id last_index_of
entry_name f = decode_id (take (or_zero (last_index_of b'_' f.id)) f.id)

unfoldable pub entry_tag : Found → Text
unfolding last_index_of
entry_tag f = drop (or_zero (last_index_of b'_' f.id)) f.id

abbrev pub is_at : ℕ → Option ℕ → Bool
is_at idx none = false
is_at idx (some i) = i == idx

-- The id of the entry spells its name, which begins with the letter of its script.
unfoldable pub entry_ok : Text → ℕ → Found → Bool
unfolding entry_name entry_tag convert_to_id index_of text_eq
entry_ok content idx f =
    text_eq (map lower_char (codes "SR_" ++ f.id))
      (codes "sr_" ++ (convert_to_id (entry_name f) ++ entry_tag f))
    && (all (λ c. ltb c 128) f.id
        && (all (λ c. ltb c 128) (entry_name f)
            && is_at idx (index_of (take 1 (entry_name f)) content)))

abbrev pub empty_site : Site
empty_site = site_of (λ file. []) (λ t. t) [] []

abbrev file_ok : Text → ℕ → Option (List Found) → Bool
file_ok content idx none = true
file_ok content idx (some fs) = all (entry_ok content idx) fs

-- The scripts of the letters of a section, `n` of them.
letters_ok : Section → ℕ → Bool
unfolding entry_ok find_entries
letters_ok x zero = true
letters_ok x (suc n) =
    file_ok x.content n (find_entries site_results (file_name empty_site x n)) && letters_ok x n

section_ok : Section → Bool
unfolding letters_ok
section_ok x = letters_ok x (length x.content)

-- Whether the section of this number is in order.
number_ok : ℕ → Bool
unfolding section_ok site_sections
number_ok n = elim (get_elem? site_sections n) [ none ↦ true | some x ↦ section_ok x ]

all_ok : number_ok 0 ≡ true
unfolding number_ok site_results hex_digit
all_ok = refl

classes_ok : number_ok 1 ≡ true
unfolding number_ok site_results hex_digit
classes_ok = refl

files_ok : number_ok 2 ≡ true
unfolding number_ok site_results hex_digit
files_ok = refl

functions_ok : number_ok 3 ≡ true
unfolding number_ok site_results hex_digit
functions_ok = refl

variables_ok : number_ok 4 ≡ true
unfolding number_ok site_results hex_digit
variables_ok = refl

typedefs_ok : number_ok 5 ≡ true
unfolding number_ok site_results hex_digit
typedefs_ok = refl

enums_ok : number_ok 6 ≡ true
unfolding number_ok site_results hex_digit
enums_ok = refl

enumvalues_ok : number_ok 7 ≡ true
unfolding number_ok site_results hex_digit
enumvalues_ok = refl

groups_ok : number_ok 8 ≡ true
unfolding number_ok site_results hex_digit
groups_ok = refl

pages_ok : number_ok 9 ≡ true
unfolding number_ok site_results hex_digit
pages_ok = refl

number_ok-at : (n : ℕ) → number_ok n ≡ true
number_ok-at zero = all_ok
number_ok-at (suc zero) = classes_ok
number_ok-at (suc (suc zero)) = files_ok
number_ok-at (suc (suc (suc zero))) = functions_ok
number_ok-at (suc (suc (suc (suc zero)))) = variables_ok
number_ok-at (suc (suc (suc (suc (suc zero))))) = typedefs_ok
number_ok-at (suc (suc (suc (suc (suc (suc zero)))))) = enums_ok
number_ok-at (suc (suc (suc (suc (suc (suc (suc zero))))))) = enumvalues_ok
number_ok-at (suc (suc (suc (suc (suc (suc (suc (suc zero)))))))) = groups_ok
number_ok-at (suc (suc (suc (suc (suc (suc (suc (suc (suc zero))))))))) = pages_ok
number_ok-at (suc (suc (suc (suc (suc (suc (suc (suc (suc (suc n)))))))))) =
    unfold number_ok site_sections in refl

section_ok-at : (n : ℕ) (x : Section) → get_elem? site_sections n ≡ some x → section_ok x ≡ true
unfolding number_ok
section_ok-at n x e = rw e at (number_ok-at n)

lt_or_eq : (i n : ℕ) → i < suc n → (i < n) ⊎ (i ≡ n)
lt_or_eq i n lt = omega arith

letters_ok-at :
    (x : Section) (n idx : ℕ) (fs : List Found)
    → letters_ok x n ≡ true
    → idx < n
    → find_entries site_results (file_name empty_site x idx) ≡ some fs
    → all (entry_ok x.content idx) fs ≡ true
unfolding letters_ok
letters_ok-at x zero idx fs ok lt e = absurd (omega arith)
letters_ok-at x (suc n) idx fs ok lt e =
    let parts =
      &&_parts (file_ok x.content n (find_entries site_results (file_name empty_site x n)))
        (letters_ok x n) ok in
    elim (lt_or_eq idx n lt) [
      | inl less ↦ letters_ok-at x n idx fs parts.1 less e
      | inr same ↦
          subst (λ o. file_ok x.content idx o ≡ true) e
            (subst
              (λ i.
                file_ok x.content i (find_entries site_results (file_name empty_site x i)) ≡ true)
              (sym same) parts.0)
    ]

-- An entry of a script of the site, at its place: it is in order.
pub entry_ok-at :
    (n idx k : ℕ) (x : Section) (fs : List Found) (f : Found)
    → get_elem? site_sections n ≡ some x
    → idx < length x.content
    → find_entries site_results (file_name empty_site x idx) ≡ some fs
    → get_elem? fs k ≡ some f
    → entry_ok x.content idx f ≡ true
unfolding section_ok
entry_ok-at n idx k x fs f here lt e g =
    all-get (entry_ok x.content idx) fs k f
      (letters_ok-at x (length x.content) idx fs (section_ok-at n x here) lt e) g
