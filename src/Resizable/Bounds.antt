-- ===== src/Resizable/Bounds.antt =====
-- docs/navtree.js, `constrainPanelWidths`: the bounds that the panels and the content keep.
use async_fw.Base.{
  ◌≡◌, refl, ap, ◌⊎◌, inl, inr, Bool, true, false, if◌then◌else◌, arith, Bool-cases,
}
use async_fw.Base.Int.{
  ℤ, pos, ◌+ℤ◌, ◌-ℤ◌, ◌≤ℤ◌, ◌<ℤ◌, min_ℤ, max_ℤ, ltb_ℤ, int_laws, int_bounds, le_left-max_ℤ,
  eq_of_parts, pos_part, neg_part,
}
use async_fw.Resizable.{
  Host, Page, Widths, bar_width, resize_width, update_widths, apply_left, apply_right,
  min_content_width, min_panel_width, constrain_panel_widths, shrink_left_first, shrink_right_first,
}

-- Two panels after `deficit` pixels are taken from them, from `first` before `second`.
record Shrunk (deficit first second first' second' : ℤ) : Type 0 where
  first_min : min_panel_width ≤ℤ first'
  second_min : min_panel_width ≤ℤ second'
  first_le : first' ≤ℤ first
  second_le : second' ≤ℤ second
  in_order : (second ≤ℤ second') ⊎ (first' ≤ℤ min_panel_width)
  taken :
      (deficit ≤ℤ first -ℤ first' +ℤ (second -ℤ second'))
      ⊎ (first' ≤ℤ min_panel_width) × (second' ≤ℤ min_panel_width)

in_order_eq : {d f s f' s' : ℤ} → Shrunk d f s f' s' → (s' ≡ s) ⊎ (f' ≡ min_panel_width)
in_order_eq h = elim h.in_order [ inl p ↦ inl (omega int_laws) | inr p ↦ inr (omega int_laws) ]

module _ (deficit l r : ℤ) (missing : pos 0 ≤ℤ deficit) where
  shrink_left_first-Shrunk :
      min_panel_width ≤ℤ l
      → min_panel_width ≤ℤ r
      → let w = shrink_left_first deficit l r in Shrunk deficit l r w.left w.right
  unfolding shrink_left_first ◌-ℤ◌ ◌+ℤ◌ min_ℤ
  shrink_left_first-Shrunk hl hr = ground arith

  shrink_right_first-Shrunk :
      min_panel_width ≤ℤ l
      → min_panel_width ≤ℤ r
      → let w = shrink_right_first deficit l r in Shrunk deficit r l w.right w.left
  unfolding shrink_right_first ◌-ℤ◌ ◌+ℤ◌ min_ℤ
  shrink_right_first-Shrunk hl hr = ground arith

-- The panels stay at their minimum or above it and do not grow, and either the content keeps its
-- minimum or both panels are at theirs.
pub record IsConstrained (h : Host) (l r : ℤ) (w : Widths) : Type 0 where
  pub left_min : min_panel_width ≤ℤ w.left
  pub right_min : min_panel_width ≤ℤ w.right
  pub left_le : w.left ≤ℤ l
  pub right_le : w.right ≤ℤ r
  pub content_min :
      (min_content_width ≤ℤ h.container_width -ℤ w.left -ℤ w.right)
      ⊎ (w.left ≡ min_panel_width) × (w.right ≡ min_panel_width)

abbrev content : Host → ℤ → ℤ → ℤ
content h l r = h.container_width -ℤ l -ℤ r

abbrev deficit : Host → ℤ → ℤ → ℤ
deficit h l r = min_content_width -ℤ content h l r

abbrev short : Host → ℤ → ℤ → Bool
short h l r = ltb_ℤ (content h l r) min_content_width

short-lt : (h : Host) (l r : ℤ) → short h l r ≡ true → content h l r <ℤ min_content_width
short-lt h l r e = ground arith

module _ (h : Host) (l r : ℤ) (hl : min_panel_width ≤ℤ l) (hr : min_panel_width ≤ℤ r) where
  IsConstrained-of_Shrunk :
      (w : Widths)
      → (Shrunk (deficit h l r) l r w.left w.right ⊎ Shrunk (deficit h l r) r l w.right w.left)
      → IsConstrained h l r w
  IsConstrained-of_Shrunk w s = omega int_laws

  IsConstrained-unchanged :
      short h l r ≡ false → IsConstrained h l r (record { left = l; right = r })
  IsConstrained-unchanged e = ground arith

  max_panel : (max_ℤ min_panel_width l ≡ l) × (max_ℤ min_panel_width r ≡ r)
  unfolding max_ℤ
  max_panel = ground arith

  missing-of_short : short h l r ≡ true → pos 0 ≤ℤ deficit h l r
  missing-of_short e = let lt = short-lt h l r e in omega int_laws

-- On a page with an outline, from panels at their minimum or above it, and whichever handle is
-- dragged: neither panel falls below its minimum or grows, and the content keeps 250 pixels
-- unless both panels are at their minimum.
pub constrain_panel_widths-IsConstrained :
    (h : Host) (l r : ℤ) (drag_left : Bool)
    → h.has_pagenav ≡ true
    → min_panel_width ≤ℤ l
    → min_panel_width ≤ℤ r
    → IsConstrained h l r (constrain_panel_widths h l r drag_left)
unfolding constrain_panel_widths
constrain_panel_widths-IsConstrained h l r drag_left nav hl hr = elim (Bool-cases (short h l r)) [
  | inl e ↦
      rw e (
        IsConstrained-of_Shrunk h l r hl hr _
          (by_handle drag_left (missing-of_short h l r hl hr e)))
  | inr e ↦
      let (ml, mr) = max_panel h l r hl hr in
      simp (e, nav, ml, mr) (IsConstrained-unchanged h l r hl hr e)
]
  where
    by_handle :
        (d : Bool)
        → pos 0 ≤ℤ deficit h l r
        → let w =
            if d
            then shrink_left_first (deficit h l r) l r
            else shrink_right_first (deficit h l r) l r in
          (Shrunk (deficit h l r) l r w.left w.right ⊎ Shrunk (deficit h l r) r l w.right w.left)
    by_handle true m = inl (shrink_left_first-Shrunk _ l r m hl hr)
    by_handle false m = inr (shrink_right_first-Shrunk _ l r m hl hr)

-- The panel whose handle is not dragged keeps its width unless the other is at its minimum.
pub constrain_panel_widths_priority :
    (h : Host) (l r : ℤ)
    → h.has_pagenav ≡ true
    → min_panel_width ≤ℤ l
    → min_panel_width ≤ℤ r
    → let dragged_left = constrain_panel_widths h l r true in
      let dragged_right = constrain_panel_widths h l r false in
      ((dragged_left.right ≡ r) ⊎ (dragged_left.left ≡ min_panel_width))
      × ((dragged_right.left ≡ l) ⊎ (dragged_right.right ≡ min_panel_width))
unfolding constrain_panel_widths
constrain_panel_widths_priority h l r nav hl hr = elim (Bool-cases (short h l r)) [
  | inl e ↦
      let m = missing-of_short h l r hl hr e in
      rw e (
        in_order_eq (shrink_left_first-Shrunk _ l r m hl hr),
        in_order_eq (shrink_right_first-Shrunk _ l r m hl hr),
      )
  | inr e ↦ let (ml, mr) = max_panel h l r hl hr in simp (e, nav, ml, mr) (inl refl, inl refl)
]

abbrev Fits : Host → ℤ → ℤ → Type 0
Fits h l r = (min_content_width ≤ℤ content h l r) ⊎ (l ≡ min_panel_width) × (r ≡ min_panel_width)

widths_ext : (w : Widths) {a b : ℤ} → w.left ≡ a → w.right ≡ b → w ≡ record { left = a; right = b }
widths_ext w p q = λ i. record { left = p i; right = q i }

fixed-of_IsConstrained :
    (h : Host) (l r : ℤ) (d : Bool)
    → h.has_pagenav ≡ true
    → min_panel_width ≤ℤ l
    → min_panel_width ≤ℤ r
    → Fits h l r
    → constrain_panel_widths h l r d ≡ record { left = l; right = r }
fixed-of_IsConstrained h l r d nav hl hr (inl fits) =
    unfold constrain_panel_widths in
    let e : short h l r ≡ false = ground arith in
    let (ml, mr) = max_panel h l r hl hr in simp (e, nav, ml, mr)
fixed-of_IsConstrained h l r d nav hl hr (inr (el, er)) =
    let c = constrain_panel_widths-IsConstrained h l r d nav hl hr in
    widths_ext (constrain_panel_widths h l r d)
      (eq_of_parts _ _ (omega (arith, ap pos_part el, ap neg_part el)))
      (eq_of_parts _ _ (omega (arith, ap pos_part er, ap neg_part er)))

-- Constraining constrained panels again changes nothing, whichever handles are dragged.
pub constrain_panel_widths_idem :
    (h : Host) (l r : ℤ) (drag_left drag_left' : Bool)
    → h.has_pagenav ≡ true
    → min_panel_width ≤ℤ l
    → min_panel_width ≤ℤ r
    → let w = constrain_panel_widths h l r drag_left in
      constrain_panel_widths h w.left w.right drag_left' ≡ w
constrain_panel_widths_idem h l r d d' nav hl hr =
    fixed (constrain_panel_widths h l r d) (constrain_panel_widths-IsConstrained h l r d nav hl hr)
  where
    fixed : (w : Widths) → IsConstrained h l r w → constrain_panel_widths h w.left w.right d' ≡ w
    fixed w c = fixed-of_IsConstrained h w.left w.right d' nav c.left_min c.right_min c.content_min

module _ (deficit l r : ℤ) where
  shrink_left_first-ge :
      let w = shrink_left_first deficit l r in
      (min_panel_width ≤ℤ w.left) × (min_panel_width ≤ℤ w.right)
  unfolding shrink_left_first
  shrink_left_first-ge = (omega int_bounds, omega int_bounds)

  shrink_right_first-ge :
      let w = shrink_right_first deficit l r in
      (min_panel_width ≤ℤ w.left) × (min_panel_width ≤ℤ w.right)
  unfolding shrink_right_first
  shrink_right_first-ge = (omega int_bounds, omega int_bounds)

-- Whatever widths are asked for, the left panel gets its minimum or more, and so does the right
-- panel of a page with an outline.
pub constrain_panel_widths-ge :
    (h : Host) (l r : ℤ) (d : Bool)
    → let w = constrain_panel_widths h l r d in
      (min_panel_width ≤ℤ w.left) × (h.has_pagenav ≡ true → min_panel_width ≤ℤ w.right)
unfolding constrain_panel_widths
constrain_panel_widths-ge h l r d = ground (
  arith,
  shrink_left_first-ge (deficit h l r) l r,
  shrink_right_first-ge (deficit h l r) l r,
  le_left-max_ℤ min_panel_width l,
  le_left-max_ℤ min_panel_width r,
)

-- The two branches with no right panel.
constrain_panel_widths_no_pagenav :
    (h : Host) (l : ℤ)
    → h.has_pagenav ≡ false
    → short h l (pos 0) ≡ true
    → pos 262 ≤ℤ h.container_width
    → (h.container_width -ℤ (constrain_panel_widths h l (pos 0) true).left ≡ pos 250)
      × (h.container_width -ℤ (constrain_panel_widths h l (pos 0) false).left ≡ pos 256)
unfolding constrain_panel_widths
constrain_panel_widths_no_pagenav h l nav e room = rw e (left_drag, other)
  where
    lt : content h l (pos 0) <ℤ min_content_width
    lt = short-lt h l (pos 0) e

    left_drag :
        h.container_width -ℤ (shrink_left_first (deficit h l (pos 0)) l (pos 0)).left ≡ pos 250
    left_drag = unfold shrink_left_first in omega (int_bounds, lt)

    other : h.container_width -ℤ (shrink_right_first (deficit h l (pos 0)) l (pos 0)).left ≡ pos 256
    other = unfold shrink_right_first in omega (int_bounds, lt)

resize_width_margin :
    (h : Host) (d : Bool) (p : Page)
    → h.has_pagenav ≡ false
    → (resize_width h d p).content_margin
      ≡ (constrain_panel_widths h (h.sidenav_outer -ℤ bar_width) (pos 0) d).left
unfolding resize_width update_widths apply_left apply_right
resize_width_margin h d p nav = ground arith

-- On a page with no outline and a container of 262 pixels or more, where the side panel leaves the
-- content less than 250 pixels: a resize from the left handle leaves it 250 pixels, and one that is
-- not from that handle leaves it 256.
pub resize_width_no_pagenav :
    (h : Host) (p : Page)
    → h.has_pagenav ≡ false
    → short h (h.sidenav_outer -ℤ bar_width) (pos 0) ≡ true
    → pos 262 ≤ℤ h.container_width
    → (h.container_width -ℤ (resize_width h true p).content_margin ≡ pos 250)
      × (h.container_width -ℤ (resize_width h false p).content_margin ≡ pos 256)
resize_width_no_pagenav h p nav e room =
    let (left_drag, other) =
      constrain_panel_widths_no_pagenav h (h.sidenav_outer -ℤ bar_width) nav e room in
    (rw (resize_width_margin h true p nav) left_drag, rw (resize_width_margin h false p nav) other)
