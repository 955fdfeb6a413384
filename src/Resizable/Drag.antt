-- ===== src/Resizable/Drag.antt =====
-- docs/navtree.js, `initResizable`: the handlers of the two resize handles and of the window, as
-- steps on the page, and what every run of them keeps.
use async_fw.Base.{
  ◌≡◌, ◌∙◌, inl, inr, All, Bool-cases, Option-cases, Bool, true, false, Option, none, some, List,
  [], ◌∷◌, ◌&&◌, if◌then◌else◌, arith,
}
use async_fw.Base.Int.{ℤ, pos, ◌+ℤ◌, ◌-ℤ◌, ◌≤ℤ◌, int_laws, eq_ℤ}
use async_fw.Resizable.Settings.{int_text}
use async_fw.Resizable.Bounds.{constrain_panel_widths-ge}
use async_fw.Resizable.{
  Host, Page, bar_width, min_panel_width, constrain_panel_widths, update_widths, apply_left,
  apply_right, resize_width, resize_height, set_heights, show_hide_nav_bar, is_zero,
}

-- A mouse event carries its position; a touch event only that of its first touch.
pub data Pointer : Type 0 where
  mouse : ℤ → Pointer
  touch : ℤ → Pointer

-- `e.clientX || e.originalEvent.touches[0].clientX`: at position 0 a mouse event has no touches,
-- and the handler throws.
pub client_x : Pointer → Option ℤ
client_x (mouse x) = if is_zero x then none else some x
client_x (touch x) = some x

-- The body of the `mousemove touchmove` handler once the position is known.
unfoldable pub drag_to : Host → ℤ → Page → Page
drag_to h x p =
    let pagenav = h.container_offset -ℤ x +ℤ pos 3 in
    let w = constrain_panel_widths h h.sidenav_inner pagenav false in
    record p {
      grid_right = w.right;
      pagenav_width = w.right -ℤ pos 1;
      content_margin = w.left;
      saved_pagenav = some (int_text pagenav);
    }

pub data Event : Type 0 where
  press release : Event
  move : Pointer → Event
  side_resized : Event
  window_resized : ℤ → ℤ → Event

-- The page and the size of the window at the last resize that counted.
pub record Session : Type 0 where
  pub page : Page
  pub last_width : ℤ
  pub last_height : ℤ

-- A handler that throws leaves what it has not yet written.
on_move : Host → Pointer → Page → Page
on_move h e p = elim (client_x e) [ none ↦ p | some x ↦ drag_to h x p ]

-- The move and release handlers are installed between a press and a release.
unfoldable pub step : Host → Event → Session → Session
unfolding on_move
step h press s = if h.has_pagenav then record s { page = record s.page { resizing = true } } else s
step h release s = record s { page = record s.page { resizing = false } }
step h (move e) s = if s.page.resizing then record s { page = on_move h e s.page } else s
step h side_resized s = record s { page = resize_width h true s.page }
step h (window_resized w v) s =
    if eq_ℤ w s.last_width && eq_ℤ v s.last_height
    then s
    else record { page = resize_height h s.page; last_width = w; last_height = v }

-- Each event comes with what the page measures at that time.
unfoldable pub run : List (Host × Event) → Session → Session
run [] s = s
run ((h, e) ∷ es) s = run es (step h e s)

-- The widths that the panels have once they are set.
pub record IsShown (p : Page) : Type 0 where
  pub margin_min : min_panel_width ≤ℤ p.content_margin
  pub sidenav_min : min_panel_width ≤ℤ p.sidenav_width
  pub grid_min : min_panel_width ≤ℤ p.grid_right
  pub pagenav_min : min_panel_width ≤ℤ p.pagenav_width +ℤ pos 1

one_less : (w : ℤ) → min_panel_width ≤ℤ w → min_panel_width ≤ℤ w -ℤ pos 1 +ℤ pos 1
one_less w m = omega int_laws

module _ (h : Host) (w : ℤ) {p : Page} where
  apply_left-IsShown : min_panel_width ≤ℤ w → IsShown p → IsShown (apply_left h w p)
  unfolding apply_left
  apply_left-IsShown m s = ground arith

  apply_right-IsShown :
      (d : Bool)
      → (h.has_pagenav ≡ true → min_panel_width ≤ℤ w)
      → IsShown p
      → IsShown (apply_right h w d p)
  unfolding apply_right
  apply_right-IsShown d m s = ground (arith, one_less w)

module _ (h : Host) (l r : ℤ) (d : Bool) {p : Page} where
  update_widths-IsShown : IsShown p → IsShown (update_widths h l r d p).0
  unfolding update_widths
  update_widths-IsShown s =
      let (left_min, right_min) = constrain_panel_widths-ge h l r d in
      apply_right-IsShown h _ d right_min (apply_left-IsShown h _ left_min s)

module _ (h : Host) {p : Page} where
  resize_width-IsShown : (d : Bool) → IsShown p → IsShown (resize_width h d p)
  unfolding resize_width
  resize_width-IsShown d s =
      let r = if h.has_pagenav then h.pagenav_outer else pos 0 in
      let u = update_widths-IsShown h (h.sidenav_outer -ℤ bar_width) r d s in
      record {
        margin_min = u.margin_min;
        sidenav_min = u.sidenav_min;
        grid_min = u.grid_min;
        pagenav_min = u.pagenav_min;
      }

  show_hide_nav_bar-IsShown : IsShown p → IsShown (show_hide_nav_bar h p)
  unfolding show_hide_nav_bar
  show_hide_nav_bar-IsShown s = ground arith

  set_heights-IsShown : IsShown p → IsShown (set_heights h p)
  unfolding set_heights
  set_heights-IsShown s = ground arith

  drag_to-IsShown : (x : ℤ) → h.has_pagenav ≡ true → IsShown p → IsShown (drag_to h x p)
  unfolding drag_to
  drag_to-IsShown x nav s =
      let c =
        constrain_panel_widths-ge h h.sidenav_inner (h.container_offset -ℤ x +ℤ pos 3) false in
      record {
        margin_min = c.0;
        sidenav_min = s.sidenav_min;
        grid_min = c.1 nav;
        pagenav_min = let g = c.1 nav in omega int_laws;
      }

resize_height-IsShown : (h : Host) {p : Page} → IsShown p → IsShown (resize_height h p)
unfolding resize_height
resize_height-IsShown h s =
    show_hide_nav_bar-IsShown h (resize_width-IsShown h false (set_heights-IsShown h s))

-- A page with no outline never enters the state in which moves count.
pub record IsValid (nav : Bool) (s : Session) : Type 0 where
  pub shown : IsShown s.page
  pub dragged : s.page.resizing ≡ true → nav ≡ true

resizing-resize_width :
    (h : Host) (d : Bool) (p : Page) → (resize_width h d p).resizing ≡ p.resizing
unfolding resize_width update_widths apply_left apply_right
resizing-resize_width h d p = ground arith

resizing-resize_height : (h : Host) (p : Page) → (resize_height h p).resizing ≡ p.resizing
unfolding resize_height show_hide_nav_bar
resizing-resize_height h p =
    ground (arith, resizing-resize_width h false (set_heights h p), heights)
  where
    heights : (set_heights h p).resizing ≡ p.resizing
    heights = unfold set_heights in ground arith

drag_to-IsValid :
    (nav : Bool) (h : Host) (x : ℤ) {s : Session}
    → h.has_pagenav ≡ nav
    → s.page.resizing ≡ true
    → IsValid nav s
    → IsValid nav (record s { page = drag_to h x s.page })
drag_to-IsValid nav h x n d v = record {
  shown = drag_to-IsShown h x (n ∙ v.dragged d) v.shown;
  dragged = λ _. v.dragged d;
}

step-IsValid :
    (nav : Bool) (h : Host) (e : Event) {s : Session}
    → h.has_pagenav ≡ nav
    → IsValid nav s
    → IsValid nav (step h e s)
unfolding step on_move
step-IsValid nav h press n v = ground arith
step-IsValid nav h release n v = ground arith
step-IsValid nav h (move e) {s} n v = elim (Bool-cases s.page.resizing) [
  | inl d ↦ elim (Option-cases (client_x e)) [
    | inl z ↦ simp d (rw (z, on_move) v)
    | inr (x, z) ↦ simp d (rw (z, on_move) (drag_to-IsValid nav h x n d v))
  ]
  | inr d ↦ simp d v
]
step-IsValid nav h side_resized {s} n v = record {
  shown = resize_width-IsShown h true v.shown;
  dragged = rw (resizing-resize_width h true s.page) v.dragged;
}
step-IsValid nav h (window_resized w k) {s} n v =
    elim (Bool-cases (eq_ℤ w s.last_width && eq_ℤ k s.last_height)) [
      | inl e ↦ rw e v
      | inr e ↦ rw e (record {
        shown = resize_height-IsShown h v.shown;
        dragged = rw (resizing-resize_height h s.page) v.dragged;
      })
    ]

abbrev Occurs : Bool → Host × Event → Type 0
Occurs nav (h, e) = h.has_pagenav ≡ nav

-- Over any run of presses, moves, releases and resizes on one page, with anything measured on the
-- way, the side panel, the content margin and the outline column stay at 6 pixels or more.
pub run-IsValid :
    (nav : Bool) (es : List (Host × Event)) {s : Session}
    → All (Occurs nav) es
    → IsValid nav s
    → IsValid nav (run es s)
unfolding run
run-IsValid nav [] o v = v
run-IsValid nav ((h, e) ∷ es) o v = run-IsValid nav es o.1 (step-IsValid nav h e o.0 v)
