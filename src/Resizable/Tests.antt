-- ===== src/Resizable/Tests.antt =====
-- docs/navtree.js, `initResizable`: runs on concrete pages.
use async_fw.Base.{◌≡◌, refl, ◌⊎◌, true, false, none, some, List, [], ◌∷◌, arith}
use async_fw.Base.Int.{pos, negsuc, ◌-ℤ◌, ◌+ℤ◌, ◌≤ℤ◌, min_ℤ, max_ℤ}
use async_fw.Resizable.{
  Host, Page, min_panel_width, constrain_panel_widths, resize_width, init_widths,
}
use async_fw.Base.Text.{codes}
use async_fw.Base.Spaces.{is_space}
use async_fw.Resizable.Settings.{int_text, parse_int}
use async_fw.Resizable.Bounds.{
  IsConstrained, constrain_panel_widths-IsConstrained, constrain_panel_widths_priority,
  constrain_panel_widths-ge, resize_width_no_pagenav,
}
use async_fw.Resizable.Drag.{
  Event, press, release, move, mouse, window_resized, Session, run, IsValid, run-IsValid,
}
use async_fw.Resizable.Restore.{Shows, resized, init_widths-resize_width}

abbrev narrow : Host
narrow = record {
  full_sidebar = false;
  has_mainnav = false;
  has_pagenav = true;
  container_width = pos 600;
  container_offset = pos 600;
  sidenav_outer = pos 306;
  sidenav_inner = pos 300;
  pagenav_outer = pos 200;
  mainnav_width = pos 0;
  mainnav_outer = pos 0;
  window_height = pos 900;
  header_height = pos 100;
  footer_height = pos 30;
}

abbrev no_outline : Host
no_outline = record narrow { has_pagenav = false; container_width = pos 500 }

abbrev blank : Page
blank = record {
  content_margin = pos 250;
  footer_margin = pos 0;
  mainnav_margin = pos 0;
  sidenav_width = pos 250;
  grid_right = pos 250;
  pagenav_width = pos 249;
  navtree_height = pos 0;
  sidenav_height = pos 0;
  content_height = pos 0;
  bar_shown = true;
  resizing = false;
  saved_width = none;
  saved_pagenav = none;
}

-- 600 pixels for panels of 300 and 200: the dragged panel gives up 150.
drag_left_first :
    (constrain_panel_widths narrow (pos 300) (pos 200) true
      ≡ record { left = pos 150; right = pos 200 })
    × (constrain_panel_widths narrow (pos 300) (pos 200) false
        ≡ record { left = pos 300; right = pos 50 })
unfolding constrain_panel_widths ◌-ℤ◌ min_ℤ max_ℤ
drag_left_first = (refl, refl)

constrain_panel_widths-IsConstrained_example :
    IsConstrained narrow
      (pos 300)
      (pos 200)
      (constrain_panel_widths narrow (pos 300) (pos 200) true)
constrain_panel_widths-IsConstrained_example =
    constrain_panel_widths-IsConstrained narrow (pos 300) (pos 200) true refl (omega arith)
      (omega arith)

constrain_panel_widths_priority_example :
    let dragged_left = constrain_panel_widths narrow (pos 300) (pos 200) true in
    let dragged_right = constrain_panel_widths narrow (pos 300) (pos 200) false in
    ((dragged_left.right ≡ pos 200) ⊎ (dragged_left.left ≡ min_panel_width))
    × ((dragged_right.left ≡ pos 300) ⊎ (dragged_right.right ≡ min_panel_width))
constrain_panel_widths_priority_example =
    constrain_panel_widths_priority narrow (pos 300) (pos 200) refl (omega arith) (omega arith)

constrain_panel_widths-ge_example :
    let w = constrain_panel_widths narrow (negsuc 4) (pos 0) false in
    (min_panel_width ≤ℤ w.left) × (true ≡ true → min_panel_width ≤ℤ w.right)
constrain_panel_widths-ge_example = constrain_panel_widths-ge narrow (negsuc 4) (pos 0) false

resize_width_no_pagenav_example :
    (pos 500 -ℤ (resize_width no_outline true blank).content_margin ≡ pos 250)
    × (pos 500 -ℤ (resize_width no_outline false blank).content_margin ≡ pos 256)
unfolding ◌-ℤ◌
resize_width_no_pagenav_example = resize_width_no_pagenav no_outline blank refl refl (omega arith)

abbrev start : Session
start = record { page = blank; last_width = pos 1000; last_height = pos 900 }

abbrev dragged : List (Host × Event)
dragged =
    (narrow, press)
    ∷ (narrow, move (mouse (pos 350)))
    ∷ (narrow, release)
    ∷ (narrow, window_resized (pos 800) (pos 900))
    ∷ []

run-IsValid_example : IsValid true (run dragged start)
unfolding ◌+ℤ◌
run-IsValid_example =
    run-IsValid true dragged (refl, (refl, (refl, (refl, tt))))
      (record {
        shown = record {
          margin_min = omega arith;
          sidenav_min = omega arith;
          grid_min = omega arith;
          pagenav_min = omega arith;
        };
        dragged = λ _. refl;
      })

abbrev reopened : Page
reopened = record blank { saved_width = some (codes "294"); saved_pagenav = some (codes "50") }

-- The same width in another window.
abbrev taller : Host
taller = record narrow {
  window_height = pos 1200;
  sidenav_outer = pos 256;
  pagenav_outer = pos 250;
}

init_widths-resize_width_example :
    Shows (init_widths taller reopened) (resized narrow false)
    × Shows (resize_width narrow false blank) (resized narrow false)
unfolding resize_width int_text ◌-ℤ◌ min_ℤ max_ℤ
init_widths-resize_width_example =
    init_widths-resize_width narrow taller false blank reopened refl refl refl (omega arith)
      (omega arith) (omega arith) refl refl

settings_are_parsed :
    (parse_int (codes " -12px") ≡ some (negsuc 11))
    × (parse_int (codes "0x1F") ≡ some (pos 31))
    × (parse_int (codes "px") ≡ none)
    × (parse_int (int_text (pos 1040)) ≡ some (pos 1040))
unfolding parse_int int_text is_space
settings_are_parsed = (refl, refl, refl, refl)
