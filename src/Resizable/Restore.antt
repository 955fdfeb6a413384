-- ===== src/Resizable/Restore.antt =====
-- docs/navtree.js, `initResizable`: the settings that `resizeWidth` saves and the start reads.
use async_fw.Base.{◌≡◌, refl, ◌∙◌, subst, Bool, true, false, some, if◌then◌else◌, arith}
use async_fw.Base.Int.{ℤ, pos, ◌+ℤ◌, ◌-ℤ◌, ◌≤ℤ◌, ◌<ℤ◌, int_laws}
use async_fw.Resizable.{
  Host, Page, Widths, bar_width, min_panel_width, constrain_panel_widths, update_widths, apply_left,
  apply_right, resize_width, show_hide_nav_bar, restore_width, init_widths, is_zero,
}
use async_fw.Resizable.Settings.{int_text, parse_int-int_text}
use async_fw.Resizable.Bounds.{constrain_panel_widths_idem}

-- The widths that `resizeWidth` sets.
abbrev pub resized : Host → Bool → Widths
resized h d =
    constrain_panel_widths h (h.sidenav_outer -ℤ bar_width)
      (if h.has_pagenav then h.pagenav_outer else pos 0) d

module _ (h : Host) (l r : ℤ) (d : Bool) (p : Page) (nav : h.has_pagenav ≡ true) where
  update_widths_sets :
      let w = constrain_panel_widths h l r d in
      let u = (update_widths h l r d p).0 in
      (u.sidenav_width ≡ w.left) × (u.content_margin ≡ w.left) × (u.grid_right ≡ w.right)
  unfolding update_widths apply_left apply_right
  update_widths_sets = ground arith

-- The side panel and the outline column that a page shows.
abbrev pub Shows : Page → Widths → Type 0
Shows p w = (p.sidenav_width ≡ w.left) × (p.content_margin ≡ w.left) × (p.grid_right ≡ w.right)

resize_width_sets :
    (h : Host) (d : Bool) (p : Page)
    → h.has_pagenav ≡ true
    → let q = resize_width h d p in
      Shows q (resized h d)
      × (q.saved_width ≡ some (int_text ((resized h d).left -ℤ bar_width)))
      × (q.saved_pagenav ≡ some (int_text (resized h d).right))
unfolding resize_width update_widths apply_left apply_right
resize_width_sets h d p nav = ground arith

restore_width_sets :
    (h : Host) (l r : ℤ) (p : Page)
    → h.has_pagenav ≡ true
    → Shows (restore_width h l r p) (constrain_panel_widths h l r false)
unfolding restore_width show_hide_nav_bar update_widths apply_left apply_right
restore_width_sets h l r p nav = ground arith

not_zero : (a : ℤ) → bar_width <ℤ a → is_zero (a -ℤ bar_width) ≡ false
unfolding ◌-ℤ◌
not_zero a h = ground arith

cancel : (a : ℤ) → a -ℤ bar_width +ℤ bar_width ≡ a
cancel a = omega int_laws

constrain_panel_widths_host :
    (h h' : Host) (l r : ℤ) (d : Bool)
    → h'.has_pagenav ≡ h.has_pagenav
    → h'.container_width ≡ h.container_width
    → constrain_panel_widths h' l r d ≡ constrain_panel_widths h l r d
unfolding constrain_panel_widths
constrain_panel_widths_host h h' l r d nav width = rw (nav, width) refl

-- A page with an outline that starts from the settings of a resize on a page with an outline, in a
-- container as wide as on that page, shows the panels that the resize set, provided that the side
-- panel was above its minimum and that the panels that the resize measured were at it or above.
pub init_widths-resize_width :
    (h h' : Host) (d : Bool) (p q : Page)
    → h.has_pagenav ≡ true
    → h'.has_pagenav ≡ true
    → h'.container_width ≡ h.container_width
    → min_panel_width ≤ℤ h.sidenav_outer -ℤ bar_width
    → min_panel_width ≤ℤ h.pagenav_outer
    → min_panel_width <ℤ (resize_width h d p).sidenav_width
    → q.saved_width ≡ (resize_width h d p).saved_width
    → q.saved_pagenav ≡ (resize_width h d p).saved_pagenav
    → Shows (init_widths h' q) (resized h d) × Shows (resize_width h d p) (resized h d)
unfolding init_widths
init_widths-resize_width h h' d p q nav nav' width hl hr wide e f =
    let (shows, saved, saved') = resize_width_sets h d p nav in
    let above : bar_width <ℤ (resized h d).left = rw shows.0 at wide in
    (simp (e ∙ saved, f ∙ saved', parse_int-int_text, not_zero _ above, cancel) again, shows)
  where
    w : Widths
    w = resized h d

    fixed : constrain_panel_widths h w.left w.right false ≡ w
    fixed = simp nav (
        constrain_panel_widths_idem h (h.sidenav_outer -ℤ bar_width) h.pagenav_outer d false nav hl
          hr)

    again : Shows (restore_width h' w.left w.right q) w
    again =
        subst (Shows (restore_width h' w.left w.right q))
          (constrain_panel_widths_host h h' w.left w.right false (rw nav nav') width ∙ fixed)
          (restore_width_sets h' w.left w.right q nav')
