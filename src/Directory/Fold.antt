-- ===== src/Directory/Fold.antt =====
-- docs/dynsections.js, `toggleFolder`: a folder that is unfolded and folded again.
use async_fw.Base.{
  ◌≡◌, refl, ap, ◌∙◌, Bool, true, false, Option, none, some, List, [], ◌∷◌, ◌++◌, All, any, arith,
  Bool-cases, inl, inr,
}
use async_fw.Base.Text.{Text, text_eq, starts_with}
use async_fw.Directory.{
  TableRow, mark, is_child, first_child_shown, hide_row, hide_below, show_child, show_children,
  mark_row, toggle_at, toggle_rows,
}

-- A child is below.
starts_with-is_child : (key t : Text) → is_child key t ≡ true → starts_with key t ≡ true
unfolding is_child starts_with
starts_with-is_child [] t e = refl
starts_with-is_child (k ∷ key) [] e = cc
starts_with-is_child (k ∷ key) (c ∷ t) e = ground (arith, starts_with-is_child key t)

module _ (key : Text) where
  -- Every row below is hidden, and the children have their marks closed.
  abbrev pub IsHiddenBelow : TableRow → Type 0
  IsHiddenBelow r =
      (starts_with key r.id ≡ true → r.shown ≡ false)
      × (is_child key r.id ≡ true
          → (mark false r.folder ≡ r.folder) × (mark false r.arrow ≡ r.arrow))

  hide_row-show_child : (r : TableRow) → IsHiddenBelow r → hide_row key (show_child key r) ≡ r
  unfolding hide_row show_child
  hide_row-show_child r h = elim (Bool-cases (is_child key r.id)) [
    | inl c ↦
        let below = starts_with-is_child key r.id c in
        let hidden = h.0 below in
        let (folder, arrow) = h.1 c in simp (c, below) (rw (folder, arrow) (kept r hidden))
    | inr c ↦ elim (Bool-cases (starts_with key r.id)) [
      | inl b ↦ simp (c, b) (kept r (h.0 b))
      | inr b ↦ simp (c, b)
    ]
  ]
    where
      kept : (q : TableRow) → q.shown ≡ false → record q { shown = false } ≡ q
      kept q e = rw (← e) refl

  hide_below-show_children :
      (rows : List TableRow)
      → All IsHiddenBelow rows
      → hide_below key (show_children key rows) ≡ rows
  unfolding hide_below show_children
  hide_below-show_children [] h = refl
  hide_below-show_children (r ∷ rows) h =
      rw (hide_row-show_child r h.0, hide_below-show_children rows h.1) refl

  first_child_shown-hidden :
      (rows : List TableRow) → All IsHiddenBelow rows → first_child_shown key rows ≡ false
  unfolding first_child_shown
  first_child_shown-hidden [] h = refl
  first_child_shown-hidden (r ∷ rows) h =
      ground (arith, first_child_shown-hidden rows h.1, starts_with-is_child key r.id, h.0.0)

  first_child_shown-show_children :
      (rows : List TableRow)
      → any (λ r. is_child key r.id) rows ≡ true
      → first_child_shown key (show_children key rows) ≡ true
  unfolding first_child_shown show_children
  first_child_shown-show_children [] h = cc
  first_child_shown-show_children (r ∷ rows) h =
      ground (arith, first_child_shown-show_children rows)

  -- The folder's row, its marks closed, with children below that are all hidden.
  pub record IsFolded (r : TableRow) (after : List TableRow) : Type 0 where
    pub own : text_eq r.id key ≡ true
    pub folder_closed : mark false r.folder ≡ r.folder
    pub arrow_closed : mark false r.arrow ≡ r.arrow
    pub has_child : any (λ q. is_child key q.id) after ≡ true
    pub hidden : All IsHiddenBelow after

  mark-mark : (o : Option Bool) → mark false (mark true o) ≡ mark false o
  mark-mark none = refl
  mark-mark (some b) = refl

  mark_row-mark_row :
      (r : TableRow)
      → mark false r.folder ≡ r.folder
      → mark false r.arrow ≡ r.arrow
      → mark_row false (mark_row true r) ≡ r
  mark_row-mark_row r f a = rw (mark-mark r.folder, mark-mark r.arrow, f, a) refl

  toggle_at_unfolds :
      (r : TableRow) (after : List TableRow)
      → IsFolded r after
      → toggle_at key r after ≡ mark_row true r ∷ show_children key after
  unfolding toggle_at
  toggle_at_unfolds r after h = rw (first_child_shown-hidden after h.hidden) refl

  toggle_at_folds :
      (r : TableRow) (after : List TableRow)
      → IsFolded r after
      → toggle_at key (mark_row true r) (show_children key after) ≡ r ∷ after
  unfolding toggle_at
  toggle_at_folds r after h =
      rw
        (first_child_shown-show_children after h.has_child, hide_below-show_children after h.hidden)
        (ap (◌∷ after) (mark_row-mark_row r h.folder_closed h.arrow_closed))

  toggle_rows-append :
      (before : List TableRow) (r : TableRow) (after : List TableRow)
      → All (λ q. text_eq q.id key ≡ false) before
      → text_eq r.id key ≡ true
      → toggle_rows key (before ++ r ∷ after) ≡ before ++ toggle_at key r after
  unfolding toggle_rows
  toggle_rows-append [] r after ne e = rw e refl
  toggle_rows-append (q ∷ before) r after ne e =
      rw (ne.0) (ap (q ∷◌) (toggle_rows-append before r after ne.1 e))

  pub toggle_rows-toggle_rows :
      (before : List TableRow) (r : TableRow) (after : List TableRow)
      → All (λ q. text_eq q.id key ≡ false) before
      → IsFolded r after
      → toggle_rows key (toggle_rows key (before ++ r ∷ after)) ≡ before ++ r ∷ after
  toggle_rows-toggle_rows before r after ne h =
      ap (toggle_rows key)
        (toggle_rows-append before r after ne h.own ∙ ap (before ++◌) (toggle_at_unfolds r after h))
      ∙ toggle_rows-append before (mark_row true r) (show_children key after) ne h.own
      ∙ ap (before ++◌) (toggle_at_folds r after h)
