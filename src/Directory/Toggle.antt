-- ===== src/Directory/Toggle.antt =====
-- docs/dynsections.js, `toggleFolder` twice: folding does not depend on the stripes.
use async_fw.Base.{
  ◌≡◌, refl, ap, ◌∙◌, Bool, true, false, ◌&&◌, not, List, [], ◌∷◌, ◌++◌, if◌then◌else◌, All,
  Bool-cases, inl, inr,
}
use async_fw.Base.Text.{Text, text_eq, starts_with}
use async_fw.Directory.{
  TableRow, stripe_from, update_stripes, is_child, first_child_shown, hide_row, hide_below,
  show_child, show_children, mark_row, toggle_at, toggle_rows, toggle_folder,
}
use async_fw.Directory.Fold.{IsFolded, toggle_rows-toggle_rows}

abbrev striped : Bool → TableRow → TableRow
striped e r = record r { even = r.shown && e; odd = r.shown && not e }

abbrev next_stripe : Bool → TableRow → Bool
next_stripe e r = if r.shown then not e else e

module _ (key : Text) where
  first_child_shown-stripe_from :
      (e : Bool) (rows : List TableRow)
      → first_child_shown key (stripe_from e rows) ≡ first_child_shown key rows
  unfolding first_child_shown stripe_from
  first_child_shown-stripe_from e [] = refl
  first_child_shown-stripe_from e (r ∷ rows) =
      rw (first_child_shown-stripe_from (next_stripe e r) rows) refl

  hide_row-striped :
      (e p : Bool) (r : TableRow)
      → (striped p (hide_row key (striped e r)) ≡ striped p (hide_row key r))
        × ((hide_row key (striped e r)).shown ≡ (hide_row key r).shown)
  unfolding hide_row
  hide_row-striped e p r = elim (Bool-cases (starts_with key r.id)) [
    | inl b ↦ rw b (refl, refl)
    | inr b ↦ rw b (refl, refl)
  ]

  show_child-striped :
      (e p : Bool) (r : TableRow)
      → (striped p (show_child key (striped e r)) ≡ striped p (show_child key r))
        × ((show_child key (striped e r)).shown ≡ (show_child key r).shown)
  unfolding show_child
  show_child-striped e p r = elim (Bool-cases (is_child key r.id)) [
    | inl b ↦ rw b (refl, refl)
    | inr b ↦ rw b (refl, refl)
  ]

  hide_below-stripe_from :
      (e p : Bool) (rows : List TableRow)
      → stripe_from p (hide_below key (stripe_from e rows)) ≡ stripe_from p (hide_below key rows)
  unfolding hide_below stripe_from
  hide_below-stripe_from e p [] = refl
  hide_below-stripe_from e p (r ∷ rows) =
      let (same, shown) = hide_row-striped e p r in
      rw (same, shown)
        (ap (striped p (hide_row key r) ∷◌)
          (hide_below-stripe_from (next_stripe e r) (next_stripe p (hide_row key r)) rows))

  show_children-stripe_from :
      (e p : Bool) (rows : List TableRow)
      → stripe_from p (show_children key (stripe_from e rows))
        ≡ stripe_from p (show_children key rows)
  unfolding show_children stripe_from
  show_children-stripe_from e p [] = refl
  show_children-stripe_from e p (r ∷ rows) =
      let (same, shown) = show_child-striped e p r in
      rw (same, shown)
        (ap (striped p (show_child key r) ∷◌)
          (show_children-stripe_from (next_stripe e r) (next_stripe p (show_child key r)) rows))

  toggle_at-stripe_from :
      (e p : Bool) (r : TableRow) (rows : List TableRow)
      → stripe_from p (toggle_at key (striped e r) (stripe_from (next_stripe e r) rows))
        ≡ stripe_from p (toggle_at key r rows)
  unfolding toggle_at stripe_from
  toggle_at-stripe_from e p r rows = elim (Bool-cases (first_child_shown key rows)) [
    | inl b ↦
        rw (first_child_shown-stripe_from (next_stripe e r) rows, b)
          (ap (striped p (mark_row false r) ∷◌)
            (hide_below-stripe_from (next_stripe e r) (next_stripe p r) rows))
    | inr b ↦
        rw (first_child_shown-stripe_from (next_stripe e r) rows, b)
          (ap (striped p (mark_row true r) ∷◌)
            (show_children-stripe_from (next_stripe e r) (next_stripe p r) rows))
  ]

  toggle_rows-stripe_from :
      (e p : Bool) (rows : List TableRow)
      → stripe_from p (toggle_rows key (stripe_from e rows)) ≡ stripe_from p (toggle_rows key rows)
  unfolding toggle_rows stripe_from
  toggle_rows-stripe_from e p [] = refl
  toggle_rows-stripe_from e p (r ∷ rows) = elim (Bool-cases (text_eq r.id key)) [
    | inl b ↦ rw b (toggle_at-stripe_from e p r rows)
    | inr b ↦
        rw b
          (ap (striped p r ∷◌) (toggle_rows-stripe_from (next_stripe e r) (next_stripe p r) rows))
  ]

  -- A folder whose marks are closed, which has a child and whose rows below are all hidden with the
  -- marks of the children closed, is after two toggles as before, with the stripes of the table
  -- brought up to date, if no earlier row has its id.
  pub toggle_folder-toggle_folder :
      (before : List TableRow) (r : TableRow) (after : List TableRow)
      → All (λ q. text_eq q.id key ≡ false) before
      → IsFolded key r after
      → toggle_folder key (toggle_folder key (before ++ r ∷ after))
        ≡ update_stripes (before ++ r ∷ after)
  unfolding toggle_folder update_stripes
  toggle_folder-toggle_folder before r after ne h =
      toggle_rows-stripe_from true true (toggle_rows key (before ++ r ∷ after))
      ∙ ap (stripe_from true) (toggle_rows-toggle_rows key before r after ne h)
