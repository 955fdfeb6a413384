-- ===== src/Search/Keys.antt =====
-- docs/search/search.js, `ProcessKeys`, `Nav` and `NavChild`: the keys in the results panel.
pub mod Moves
use async_fw.Base.{
  ℕ, zero, suc, ◌+◌, ◌-◌, Bool, true, false, not, Option, none, some, List, [], ◌∷◌, if◌then◌else◌,
  ◌==◌, length, get_elem?, set,
}
use async_fw.Base.Text.{Text, text_eq}
use mathlib.Core.Option.{map}
use async_fw.Search.Results.{Row, Kids, Link, Results, nav_next, nav_prev}

-- The elements that get the focus: the search field, `Item` i and `Item` i `_c` j.
pub data Focus : Type 0 where
  field : Focus
  item : ℕ → Focus
  child : ℕ → ℕ → Focus

pub data KeyType : Type 0 where
  keydown keypress keyup : KeyType

pub record Key : Type 0 where
  pub type : KeyType
  pub code : ℕ

-- What a handler leaves: the state, the element that it focuses, whether it closes the panel and
-- stops the event, and what it returns.
pub record Outcome : Type 0 where
  pub results : Results
  pub focus : Option Focus
  pub closed : Bool
  pub returned : Bool

abbrev pub stay : Results → Bool → Outcome
stay r b = record { results = r; focus = none; closed = false; returned = b }

abbrev pub go : Results → Option Focus → Outcome
go r f = record { results = r; focus = f; closed = false; returned = false }

process : KeyType → ℕ → Results → Results × Bool
process keydown code r = (record r { repeat_on = false; last_key = code }, not (code == 0))
process keypress code r =
    if r.repeat_on
    then (r, not (r.last_key == 0))
    else (if r.last_key == 0 then r else record r { repeat_on = true }, false)
process keyup code r = (record r { last_key = 0; repeat_on = false }, false)

unfoldable pub process_keys : Key → Results → Results × Bool
unfolding process
process_keys e r = process e.type e.code r

-- `FindChildElement` of a row, and how many `Item` i `_c` elements there are.
abbrev pub kids_of : Option Row → Option Kids
kids_of none = none
kids_of (some row) = row.kids

abbrev pub is_unfolded : Option Kids → Bool
is_unfolded none = false
is_unfolded (some k) = k.unfolded

abbrev pub kid_count : Option Kids → ℕ
kid_count none = 0
kid_count (some k) = length k.links

abbrev pub kids_at : Results → ℕ → Option Kids
kids_at r i = kids_of (get_elem? r.rows i)

-- The loop `for (;;)` over `Item` i `_c0`, `_c1`, … keeps the last one that is there.
abbrev pub last_child : ℕ → ℕ → Focus → Focus
last_child i zero f = f
last_child i (suc m) f = child i m

-- Up from `Item` n: the children are looked up under `n - 1`, whichever item `NavPrev` gave.
abbrev pub up_to : Results → ℕ → Option ℕ → Focus
up_to r n none = field
up_to r n (some k) =
    if is_unfolded (kids_at r k)
    then last_child (n - 1) (kid_count (kids_at r (n - 1))) (item k)
    else item k

nav_up : ℕ → Results → Outcome
nav_up n r = go r (some (up_to r n (nav_prev r.rows n)))

abbrev pub item_or_none : Option ℕ → Option Focus
item_or_none none = none
item_or_none (some i) = some (item i)

abbrev pub first_child : ℕ → Option Kids → Option ℕ → Option Focus
first_child n none next = item_or_none next
first_child n (some k) next =
    if k.unfolded
    then (elim k.links [ [] ↦ item_or_none next | x ∷ xs ↦ some (child n 0) ])
    else item_or_none next

nav_down : ℕ → Results → Outcome
nav_down n r = go r (first_child n (kids_at r n) (nav_next r.rows (suc n)))

-- `elem.style.display` of the children of one row.
unfoldable pub fold_kids : Bool → Option Kids → Option Kids
fold_kids b none = none
fold_kids b (some k) = some (record k { unfolded = b })

set_kids : Bool → ℕ → List Row → List Row
unfolding fold_kids
set_kids b i [] = []
set_kids b zero (row ∷ rows) = record row { kids = fold_kids b row.kids } ∷ rows
set_kids b (suc i) (row ∷ rows) = row ∷ set_kids b i rows

nav_fold : Bool → ℕ → Results → Outcome
unfolding set_kids
nav_fold b n r = go (record r { rows = set_kids b n r.rows }) none

abbrev pub escape : Results → Outcome
escape r = record { results = r; focus = some field; closed = true; returned = false }

dispatch : ℕ → ℕ → Results → Outcome
unfolding nav_up nav_down nav_fold
dispatch key n r =
    if key == 38
    then nav_up n r
    else if key == 40
    then nav_down n r
    else if key == 39
    then nav_fold true n r
    else if key == 37
    then nav_fold false n r
    else if key == 27
    then escape r
    else stay r (key == 13)

-- `Nav(evt, n)` at the link of row `n`.
unfoldable pub nav : Key → ℕ → Results → Outcome
unfolding dispatch process_keys
nav e n r =
    if e.code == 13
    then stay r true
    else (let (r', live) = process_keys e r in
        if live then dispatch r'.last_key n r' else stay r' false)

abbrev flip_kids : Option Kids → Option Kids
flip_kids none = none
flip_kids (some k) = some (record k { unfolded = not k.unfolded })

-- `Toggle(id)` of the link of a row; an id that is not there makes it throw.
unfoldable pub toggle : Text → List Row → Option (List Row)
toggle id [] = none
toggle id (row ∷ rows) =
    let rest = toggle id rows in
    if text_eq row.id id
    then some (record row { kids = flip_kids row.kids } ∷ rows)
    else map (row ∷◌) rest

abbrev pub links_of : Option Kids → List Link
links_of none = []
links_of (some k) = k.links

abbrev pub next_child : ℕ → ℕ → Option Kids → Option ℕ → Option Focus
next_child n c kids next = elim (get_elem? (links_of kids) (suc c)) [
  | none ↦ item_or_none next
  | some x ↦ some (child n (suc c))
]

child_up : ℕ → ℕ → Focus
child_up n zero = item n
child_up n (suc c) = child n c

dispatch_child : ℕ → ℕ → ℕ → Results → Outcome
unfolding child_up
dispatch_child key n c r =
    if key == 38
    then go r (some (child_up n c))
    else if key == 40
    then go r (next_child n c (kids_at r n) (nav_next r.rows (suc n)))
    else if key == 27
    then escape r
    else stay r (key == 13)

-- `NavChild(evt, n, c)` at child `c` of row `n`.
unfoldable pub nav_child : Key → ℕ → ℕ → Results → Outcome
unfolding dispatch_child process_keys
nav_child e n c r =
    if e.code == 13
    then stay r true
    else (let (r', live) = process_keys e r in
        if live then dispatch_child r'.last_key n c r' else stay r' false)
