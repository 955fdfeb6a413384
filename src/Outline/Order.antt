-- ===== src/Outline/Order.antt =====
-- docs/navtree.js, `initPageToc`: the outline keeps the order of the headings, and a heading stands
-- one step below the nearest earlier one of a smaller level.
use async_fw.Base.{
  ℕ, zero, suc, ◌+◌, ◌*◌, ◌≤◌, ◌≡◌, refl, sym, ap, ◌∙◌, true, false, List, [], ◌∷◌, ◌++◌,
  if◌then◌else◌, leb, ltb, length, arith, Bool-cases, inl, inr, append-nil, append_assoc,
}
use async_fw.Outline.{
  Heading, Outline, nothing, section, pop_sections, push_section, add_headings, Line, render,
  page_outline,
}

-- How many headings a heading of this level stands below, where `before` are the earlier headings,
-- the latest first.
abbrev pub depth_below : ℕ → List Heading → ℕ
depth_below level [] = 0
depth_below level (h ∷ before) =
    let under = depth_below h.level before in
    let past = depth_below level before in if ltb h.level level then suc under else past

-- The headings in their order, each with its depth.
abbrev pub lines_after : List Heading → List Heading → List Line
lines_after before [] = []
lines_after before (h ∷ hs) =
    record { heading = h; padding = depth_below h.level before * 16 } ∷ lines_after (h ∷ before) hs

-- The stack that earlier headings leave.
abbrev stack_of : List Heading → List ℕ
stack_of [] = []
stack_of (h ∷ before) = h.level ∷ pop_sections h.level (stack_of before)

pop_sections-pop_sections :
    (a b : ℕ) (stack : List ℕ)
    → a ≤ b
    → pop_sections a (pop_sections b stack) ≡ pop_sections a stack
unfolding pop_sections
pop_sections-pop_sections a b [] le = refl
pop_sections-pop_sections a b (x ∷ stack) le =
    ground (arith, pop_sections-pop_sections a b stack le)

length-pop_sections :
    (level : ℕ) (before : List Heading)
    → length (pop_sections level (stack_of before)) ≡ depth_below level before
unfolding pop_sections
length-pop_sections level [] = refl
length-pop_sections level (h ∷ before) = elim (Bool-cases (leb level h.level)) [
  | inl e ↦
      let lt : ltb h.level level ≡ false = ground arith in
      rw (e, lt)
        (ap length (pop_sections-pop_sections level h.level (stack_of before) (ground arith))
          ∙ length-pop_sections level before)
  | inr e ↦
      let lt : ltb h.level level ≡ true = ground arith in
      rw (e, lt) (ap suc (length-pop_sections h.level before))
]

abbrev line : Heading → ℕ → Line
line h level = record { heading = h; padding = level * 16 }

-- How far down the right edge of the tree goes.
abbrev edge : Outline → ℕ
edge nothing = 0
edge (section h c nothing) = suc (edge c)
edge (section h c (section g c' r)) = edge (section g c' r)

edge-section : (g : Heading) (c o : Outline) → 1 ≤ edge o → edge (section g c o) ≡ edge o
edge-section g c nothing le = absurd (omega arith)
edge-section g c (section k c' r) le = refl

edge-push_section :
    (d : ℕ) (h : Heading) (o : Outline) → d ≤ edge o → edge (push_section d h o) ≡ suc d
unfolding push_section
edge-push_section zero h nothing le = refl
edge-push_section zero h (section g c nothing) le = refl
edge-push_section zero h (section g c (section k c' r)) le =
    edge-push_section zero h (section k c' r) (omega arith)
edge-push_section (suc d) h nothing le = absurd (omega arith)
edge-push_section (suc d) h (section g c nothing) le =
    ap suc (edge-push_section d h c (omega arith))
edge-push_section (suc d) h (section g c (section k c' r)) le =
    let rest = edge-push_section (suc d) h (section k c' r) le in
    edge-section g c (push_section (suc d) h (section k c' r)) (omega arith) ∙ rest

render-push_section :
    (d level : ℕ) (h : Heading) (o : Outline)
    → d ≤ edge o
    → render level (push_section d h o)
      ≡ render level o ++ record { heading = h; padding = (level + d) * 16 } ∷ []
unfolding push_section render
render-push_section zero level h nothing le =
    let here : level + 0 ≡ level = omega arith in rw here refl
render-push_section zero level h (section g c r) le = ap (line g level ∷◌) (
    ap (render (level + 1) c ++◌) (render-push_section zero level h r (omega arith))
    ∙ sym (append_assoc (render (level + 1) c) (render level r) _))
render-push_section (suc d) level h nothing le = absurd (omega arith)
render-push_section (suc d) level h (section g c nothing) le =
    let deep : level + 1 + d ≡ level + suc d = omega arith in
    ap (line g level ∷◌) (
      append-nil _
      ∙ render-push_section d (level + 1) h c (omega arith)
      ∙ rw (deep, append-nil (render (level + 1) c)) refl)
render-push_section (suc d) level h (section g c (section k c' r)) le = ap (line g level ∷◌) (
    ap (render (level + 1) c ++◌) (render-push_section (suc d) level h (section k c' r) le)
    ∙ sym (append_assoc (render (level + 1) c) (render level (section k c' r)) _))

pop_sections-le : (level : ℕ) (stack : List ℕ) → length (pop_sections level stack) ≤ length stack
unfolding pop_sections
pop_sections-le level [] = omega arith
pop_sections-le level (top ∷ stack) = ground (arith, pop_sections-le level stack)

-- From a tree whose right edge is as deep as the stack that the earlier headings leave.
render-add_headings :
    (hs before : List Heading) (tree : Outline)
    → edge tree ≡ length (stack_of before)
    → let s = add_headings hs (record { tree = tree; stack = stack_of before }) in
      render 0 s.tree ≡ render 0 tree ++ lines_after before hs
unfolding add_headings
render-add_headings [] before tree e = sym (append-nil (render 0 tree))
render-add_headings (h ∷ hs) before tree e =
    let stack = pop_sections h.level (stack_of before) in
    let tree' = push_section (length stack) h tree in
    let fits : length stack ≤ edge tree =
      let le = pop_sections-le h.level (stack_of before) in omega arith in
    let ih =
      render-add_headings hs (h ∷ before) tree' (edge-push_section (length stack) h tree fits) in
    let same = length-pop_sections h.level before in
    let depth : 0 + length stack ≡ depth_below h.level before = omega arith in
    ih
    ∙ ap (◌++ lines_after (h ∷ before) hs) (render-push_section (length stack) 0 h tree fits)
    ∙ append_assoc (render 0 tree) _ _
    ∙ ap (λ d. render 0 tree ++ line h d ∷ lines_after (h ∷ before) hs) depth

-- The outline lists the headings of the page in their order, each padded by 16 pixels for every
-- heading that it stands below: the nearest earlier one of a smaller level, and those above that.
pub page_outline-lines_after : (hs : List Heading) → page_outline hs ≡ lines_after [] hs
unfolding page_outline
page_outline-lines_after hs = render-add_headings hs [] nothing refl
