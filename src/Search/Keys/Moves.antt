-- ===== src/Search/Keys/Moves.antt =====
-- docs/search/search.js, `Nav` and `NavChild`: where the keys move the focus.
use async_fw.Base.{
  ℕ, suc, ◌-◌, ◌<◌, ◌≡◌, ◌≢◌, refl, true, false, Option, none, some, ◌==◌, length, arith, ap, subst,
}
use async_fw.Search.Results.{Kids, Results, nav_next, nav_prev}
use async_fw.Search.Results.Focus.{is_shown, IsFirst, IsLast, nav_next-IsFirst, nav_prev-IsLast}
use async_fw.Search.Keys.{
  Focus, field, item, child, Key, keydown, keypress, keyup, kids_at, is_unfolded, kid_count,
  item_or_none, process_keys, nav, up_to, first_child,
}

abbrev pub pressed : ℕ → Key
pressed code = record { type = keydown; code = code }

-- A key that is held: the first keypress behind its keydown is swallowed and every further one
-- acts, until the keyup; a keypress with no keydown before it does nothing.
pub process_keys_held :
    (code c d u : ℕ) (r : Results)
    → (code == 0) ≡ false
    → let down = process_keys (record { type = keydown; code = code }) r in
      let first = process_keys (record { type = keypress; code = c }) down.0 in
      let second = process_keys (record { type = keypress; code = d }) first.0 in
      let up = process_keys (record { type = keyup; code = u }) second.0 in
      (down.1 ≡ true)
      × (first.1 ≡ false)
      × (second.1 ≡ true)
      × (second.0 ≡ first.0)
      × (up.1 ≡ false)
      × (process_keys (record { type = keypress; code = c }) up.0 ≡ (up.0, false))
unfolding process_keys
process_keys_held code c d u r h = ground arith

first_child-folded :
    (n : ℕ) (k : Option Kids) (next : Option ℕ)
    → is_unfolded k ≡ false
    → first_child n k next ≡ item_or_none next
first_child-folded n none next h = refl
first_child-folded n (some k) next h = rw h

abbrev pub item_or_field : Option ℕ → Focus
item_or_field none = field
item_or_field (some k) = item k

up_to-folded :
    (r : Results) (n : ℕ) (prev : Option ℕ)
    → ((k : ℕ) → is_unfolded (kids_at r k) ≡ false)
    → up_to r n prev ≡ item_or_field prev
up_to-folded r n none h = refl
up_to-folded r n (some k) h = rw (h k)

module _ (n : ℕ) (r : Results) where
  -- Down from an item whose children are folded moves to the first shown item below it, or leaves
  -- the focus where it is if there is none; the rows stay as they are.
  pub nav_down_folded :
      is_unfolded (kids_at r n) ≡ false
      → let o = nav (pressed 40) n r in
        (next : Option ℕ) × (o.focus ≡ item_or_none next)
        × IsFirst r.rows (suc n) next
        × (o.results.rows ≡ r.rows)
  unfolding nav
  nav_down_folded h =
      (nav_next r.rows (suc n), first_child-folded n _ _ h, nav_next-IsFirst r.rows (suc n), refl)

  -- Up from an item, with all children folded, moves to the last shown item above it, or to the
  -- search field if there is none; the rows stay as they are.
  pub nav_up_folded :
      n < suc (length r.rows)
      → ((k : ℕ) → is_unfolded (kids_at r k) ≡ false)
      → let o = nav (pressed 38) n r in
        (prev : Option ℕ) × (o.focus ≡ some (item_or_field prev))
        × IsLast r.rows n prev
        × (o.results.rows ≡ r.rows)
  unfolding nav
  nav_up_folded b h = (
    nav_prev r.rows n,
    ap some (up_to-folded (process_keys (pressed 38) r).0 n _ h),
    nav_prev-IsLast r.rows n (omega arith),
    refl,
  )

-- Up from an item, where the item just above it is hidden and has children, and the last shown
-- item further up has its children unfolded: the focus goes to a child of the hidden item.
pub nav_up_hidden :
    (i k m : ℕ) (r : Results)
    → i < length r.rows
    → nav_prev r.rows (suc i) ≡ some k
    → k ≢ i
    → is_unfolded (kids_at r k) ≡ true
    → kid_count (kids_at r i) ≡ suc m
    → ((nav (pressed 38) (suc i) r).focus ≡ some (child i m)) × (is_shown r.rows i ≡ false)
unfolding nav
nav_up_hidden i k m r b e ne open_kids kids = (focus, hidden)
  where
    back : suc i - 1 ≡ i
    back = omega arith

    focus :
        some (up_to (process_keys (pressed 38) r).0 (suc i) (nav_prev r.rows (suc i)))
        ≡ some (child i m)
    focus = simp (e, open_kids, back, kids)

    last : IsLast r.rows (suc i) (some k)
    last = subst (IsLast r.rows (suc i)) e (nav_prev-IsLast r.rows (suc i) (omega arith))

    hidden : is_shown r.rows i ≡ false
    hidden =
        let lt : k < suc i = last.0 in
        let differ : ¬ (k ≡ i) = ne in last.2 i (omega arith) (omega arith)
