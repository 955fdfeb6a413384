-- ===== src/Search/Results/Focus.antt =====
-- docs/search/search.js, `NavNext` and `NavPrev`: the item that the focus moves to.
use mathlib.Core.Option.{some-injective}
use async_fw.Base.{
  ℕ, zero, suc, ◌+◌, ◌-◌, ◌<◌, ◌≤◌, ◌≡◌, ◌⊎◌, refl, Bool, true, false, Option, none, some, List, [],
  ◌∷◌, get_elem?, drop, length, arith, sym, ◌∙◌, Bool-cases, inl, inr,
}
use async_fw.Search.Results.{Row, next_from, nav_next, nav_prev}

-- What `getElementById('Item' + i)` and its row's display give.
abbrev pub is_shown : List Row → ℕ → Bool
is_shown [] i = false
is_shown (row ∷ rows) zero = row.shown
is_shown (row ∷ rows) (suc i) = is_shown rows i

-- `j` is the first shown item from `i` on, or there is none.
abbrev pub IsFirst : List Row → ℕ → Option ℕ → Type 0
IsFirst rows i none = (k : ℕ) → i ≤ k → is_shown rows k ≡ false
IsFirst rows i (some j) =
    (i ≤ j) × (is_shown rows j ≡ true) × ((k : ℕ) → i ≤ k → k < j → is_shown rows k ≡ false)

-- `j` is the last shown item before `n`, or there is none.
abbrev pub IsLast : List Row → ℕ → Option ℕ → Type 0
IsLast rows n none = (k : ℕ) → k < n → is_shown rows k ≡ false
IsLast rows n (some j) =
    (j < n) × (is_shown rows j ≡ true) × ((k : ℕ) → j < k → k < n → is_shown rows k ≡ false)

-- The first shown one of some rows, counted from the first of them.
abbrev FirstOf : List Row → Option ℕ → ℕ → Type 0
FirstOf rows o base =
    ((o ≡ none) × ((k : ℕ) → is_shown rows k ≡ false))
    ⊎ ((m : ℕ) × (o ≡ some (base + m))
        × (is_shown rows m ≡ true)
        × ((k : ℕ) → k < m → is_shown rows k ≡ false))

hidden-cons :
    (row : Row) (rows : List Row) (m : ℕ)
    → row.shown ≡ false
    → ((k : ℕ) → k < m → is_shown rows k ≡ false)
    → (k : ℕ) → k < suc m
    → is_shown (row ∷ rows) k ≡ false
hidden-cons row rows m h f zero lt = h
hidden-cons row rows m h f (suc k) lt = f k (omega arith)

hidden-all :
    (row : Row) (rows : List Row)
    → row.shown ≡ false
    → ((k : ℕ) → is_shown rows k ≡ false)
    → (k : ℕ) → is_shown (row ∷ rows) k ≡ false
hidden-all row rows h f zero = h
hidden-all row rows h f (suc k) = f k

FirstOf-cons :
    (row : Row) (rows : List Row) (o : Option ℕ) (base : ℕ)
    → row.shown ≡ false
    → FirstOf rows o (suc base)
    → FirstOf (row ∷ rows) o base
FirstOf-cons row rows o base h (inl (e, f)) = inl (e, hidden-all row rows h f)
FirstOf-cons row rows o base h (inr (m, e, s, f)) =
    let same : suc base + m ≡ base + suc m = omega arith in
    inr (suc m, rw (← same) e, s, hidden-cons row rows m h f)

next_from-FirstOf : (rows : List Row) (base : ℕ) → FirstOf rows (next_from rows base) base
unfolding next_from
next_from-FirstOf [] base = inl (refl, λ k. refl)
next_from-FirstOf (row ∷ rows) base =
    by_row (Bool-cases row.shown) (next_from-FirstOf rows (suc base))
  where
    by_row :
        (row.shown ≡ true) ⊎ (row.shown ≡ false)
        → FirstOf rows (next_from rows (suc base)) (suc base)
        → FirstOf (row ∷ rows) (next_from (row ∷ rows) base) base
    by_row (inl s) ih =
        let here : base + 0 ≡ base = omega arith in
        inr (0, simp (s, here), s, λ k lt. absurd (omega arith))
    by_row (inr s) ih = simp s (FirstOf-cons row rows _ base s ih)

is_shown-drop : (i k : ℕ) (rows : List Row) → is_shown (drop i rows) k ≡ is_shown rows (i + k)
is_shown-drop zero k rows = let e : 0 + k ≡ k = omega arith in rw e
is_shown-drop (suc i) k [] = refl
is_shown-drop (suc i) k (row ∷ rows) =
    let e : suc i + k ≡ suc (i + k) = omega arith in rw e (is_shown-drop i k rows)

-- `NavNext(i)` gives the first shown item from `i` on, and nothing exactly if there is none.
pub nav_next-IsFirst : (rows : List Row) (i : ℕ) → IsFirst rows i (nav_next rows i)
unfolding nav_next
nav_next-IsFirst rows i = by_first (next_from (drop i rows) i) (next_from-FirstOf (drop i rows) i)
  where
    at : (k : ℕ) → i ≤ k → is_shown rows k ≡ is_shown (drop i rows) (k - i)
    at k le = let e : i + (k - i) ≡ k = omega arith in sym (rw e at (is_shown-drop i (k - i) rows))

    by_first : (o : Option ℕ) → FirstOf (drop i rows) o i → IsFirst rows i o
    by_first none (inl (e, f)) = λ k le. rw (at k le) (f (k - i))
    by_first none (inr (m, e, s, f)) = absurd (cc)
    by_first (some j) (inl (e, f)) = absurd (cc)
    by_first (some j) (inr (m, e, s, f)) =
        let place : j ≡ i + m = some-injective j (i + m) e in
        let le : i ≤ j = omega arith in
        let back : j - i ≡ m = omega arith in
        (le, rw (at j le, back) s, λ k lo hi. rw (at k lo) (f (k - i) (omega arith)))

get_elem?-is_shown :
    (rows : List Row) (i : ℕ)
    → i < length rows
    → (row : Row) × (get_elem? rows i ≡ some row) × (is_shown rows i ≡ row.shown)
get_elem?-is_shown [] i h = absurd (omega arith)
get_elem?-is_shown (row ∷ rows) zero h = (row, refl, refl)
get_elem?-is_shown (row ∷ rows) (suc i) h = get_elem?-is_shown rows i (omega arith)

IsLast-skip :
    (rows : List Row) (i : ℕ) (o : Option ℕ)
    → is_shown rows i ≡ false
    → IsLast rows i o
    → IsLast rows (suc i) o
IsLast-skip rows i none h l = λ k lt. below k (split k lt)
  where
    split : (k : ℕ) → k < suc i → (k < i) ⊎ (k ≡ i)
    split k lt = omega arith

    below : (k : ℕ) → (k < i) ⊎ (k ≡ i) → is_shown rows k ≡ false
    below k (inl lt) = l k lt
    below k (inr e) = rw e h
IsLast-skip rows i (some j) h l = (omega arith, l.1, λ k lo lt. between k lo (split k lt))
  where
    split : (k : ℕ) → k < suc i → (k < i) ⊎ (k ≡ i)
    split k lt = omega arith

    between : (k : ℕ) → j < k → (k < i) ⊎ (k ≡ i) → is_shown rows k ≡ false
    between k lo (inl lt) = l.2 k lo lt
    between k lo (inr e) = rw e h

-- `NavPrev(n - 1)` gives the last shown item before item `n`, and nothing exactly if there is
-- none, for every `n` up to the number of items.
pub nav_prev-IsLast : (rows : List Row) (n : ℕ) → n ≤ length rows → IsLast rows n (nav_prev rows n)
unfolding nav_prev
nav_prev-IsLast rows zero h = λ k lt. absurd (omega arith)
nav_prev-IsLast rows (suc i) h =
    by_row (get_elem?-is_shown rows i h) (nav_prev-IsLast rows i (omega arith))
  where
    by_row :
        (row : Row) × (get_elem? rows i ≡ some row) × (is_shown rows i ≡ row.shown)
        → IsLast rows i (nav_prev rows i)
        → IsLast rows (suc i) (nav_prev rows (suc i))
    by_row (row, e, s) ih = elim (Bool-cases row.shown) [
      | inl t ↦
          simp (e, t)
            (let last : is_shown rows i ≡ true = s ∙ t in
              (omega arith, last, λ k lo hi. absurd (omega arith)))
      | inr f ↦ simp (e, f) (IsLast-skip rows i _ (s ∙ f) ih)
    ]
