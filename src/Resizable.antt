-- ===== src/Resizable.antt =====
-- docs/navtree.js, `initResizable`: the widths and heights of the side panel, the page outline
-- and the content. Pixel counts are whole numbers, and a setting is the text that the code writes
-- and `parseInt` reads; what the code measures in the page is `Host`.
pub mod Bounds
pub mod Drag
pub mod Restore
pub mod Settings
mod Tests
use async_fw.Base.{
  zero, ℕ, ◌≡◌, Bool, true, false, Option, none, some, if◌then◌else◌, ltb, ◌&&◌, ◌==◌, not,
}
use Settings.{int_text, parse_int}
use async_fw.Base.Text.{Text, codes}
use async_fw.Base.Int.{ℤ, pos, negsuc, ◌+ℤ◌, ◌-ℤ◌, min_ℤ, max_ℤ, ltb_ℤ}

abbrev pub bar_width : ℤ
bar_width = pos 6

abbrev pub min_content_width : ℤ
min_content_width = pos 250

abbrev pub min_panel_width : ℤ
min_panel_width = bar_width

pub record Widths : Type 0 where
  pub left : ℤ
  pub right : ℤ

-- What the handlers read from the page when they run.
pub record Host : Type 0 where
  pub full_sidebar : Bool
  pub has_mainnav : Bool
  pub has_pagenav : Bool
  pub container_width : ℤ
  pub container_offset : ℤ
  pub sidenav_outer : ℤ
  pub sidenav_inner : ℤ
  pub pagenav_outer : ℤ
  pub mainnav_width : ℤ
  pub mainnav_outer : ℤ
  pub window_height : ℤ
  pub header_height : ℤ
  pub footer_height : ℤ

-- What the handlers write: styles, settings, and the class `resizing` of the body. A setting is the
-- text that `Cookie.readSetting` gives back, and `none` where that is its default.
pub record Page : Type 0 where
  pub content_margin : ℤ
  pub footer_margin : ℤ
  pub mainnav_margin : ℤ
  pub sidenav_width : ℤ
  pub grid_right : ℤ
  pub pagenav_width : ℤ
  pub navtree_height : ℤ
  pub sidenav_height : ℤ
  pub content_height : ℤ
  pub bar_shown : Bool
  pub resizing : Bool
  pub saved_width : Option Text
  pub saved_pagenav : Option Text

-- The default of both settings is 250.
abbrev pub setting_or : Option Text → Text
setting_or none = codes "250"
setting_or (some t) = t

-- The two branches of `if (dragLeft)`: the first panel gives way, then the second.
shrink_left_first : ℤ → ℤ → ℤ → Widths
shrink_left_first deficit l r =
    let shrink_left = min_ℤ deficit (l -ℤ min_panel_width) in
    let remaining = deficit -ℤ shrink_left in
    let shrink_right = min_ℤ remaining (r -ℤ min_panel_width) in
    record { left = l -ℤ shrink_left; right = r -ℤ shrink_right }

shrink_right_first : ℤ → ℤ → ℤ → Widths
shrink_right_first deficit l r =
    let shrink_right = min_ℤ deficit (r -ℤ min_panel_width) in
    let remaining = deficit -ℤ shrink_right in
    let shrink_left = min_ℤ remaining (l -ℤ min_panel_width) in
    record { left = l -ℤ shrink_left; right = r -ℤ shrink_right }

unfoldable pub constrain_panel_widths : Host → ℤ → ℤ → Bool → Widths
unfolding shrink_left_first shrink_right_first
constrain_panel_widths h l r drag_left =
    let content = h.container_width -ℤ l -ℤ r in
    if ltb_ℤ content min_content_width
    then (let deficit = min_content_width -ℤ content in
        if drag_left then shrink_left_first deficit l r else shrink_right_first deficit l r)
    else record {
      left = max_ℤ min_panel_width l;
      right = if h.has_pagenav then max_ℤ min_panel_width r else pos 0;
    }

-- `css` calls of `updateWidths`, in order.
apply_left : Host → ℤ → Page → Page
apply_left h w p =
    if h.full_sidebar
    then record p {
      content_margin = w;
      sidenav_width = w;
      footer_margin = w;
      mainnav_margin = if h.has_mainnav then w else p.mainnav_margin;
    }
    else record p { content_margin = w; sidenav_width = w }

apply_right : Host → ℤ → Bool → Page → Page
apply_right h w drag_left p =
    if h.has_pagenav
    then record p {
      grid_right = w;
      pagenav_width = if drag_left then p.pagenav_width else w -ℤ pos 1;
    }
    else p

unfoldable pub update_widths : Host → ℤ → ℤ → Bool → Page → Page × Widths
unfolding apply_left apply_right constrain_panel_widths
update_widths h l r drag_left p =
    let w = constrain_panel_widths h l r drag_left in
    (apply_right h w.right drag_left (apply_left h w.left p), w)

unfoldable pub resize_width : Host → Bool → Page → Page
unfolding update_widths
resize_width h drag_left p =
    let l = h.sidenav_outer -ℤ bar_width in
    let r = if h.has_pagenav then h.pagenav_outer else pos 0 in
    let (p', w) = update_widths h l r drag_left p in
    record p' {
      saved_width = some (int_text (w.left -ℤ bar_width));
      saved_pagenav = if h.has_pagenav then some (int_text w.right) else p'.saved_pagenav;
    }

unfoldable pub show_hide_nav_bar : Host → Page → Page
show_hide_nav_bar h p =
    if h.full_sidebar && h.has_mainnav
    then record p { bar_shown = not (ltb_ℤ h.mainnav_width (pos 768)) }
    else p

unfoldable pub restore_width : Host → ℤ → ℤ → Page → Page
unfolding update_widths show_hide_nav_bar
restore_width h l r p = show_hide_nav_bar h (update_widths h l r false p).0

set_heights : Host → Page → Page
set_heights h p =
    if h.full_sidebar
    then (let content = h.window_height -ℤ h.footer_height -ℤ pos 1 in
        record p {
          content_height = if h.has_mainnav then content -ℤ h.mainnav_outer else content;
          navtree_height = h.window_height -ℤ h.header_height -ℤ pos 1;
          sidenav_height = h.window_height -ℤ pos 1;
        })
    else (let content = h.window_height -ℤ h.header_height -ℤ h.footer_height -ℤ pos 1 in
        record p { content_height = content; navtree_height = content; sidenav_height = content })

unfoldable pub resize_height : Host → Page → Page
unfolding set_heights resize_width show_hide_nav_bar
resize_height h p = show_hide_nav_bar h (resize_width h false (set_heights h p))

abbrev pub is_zero : ℤ → Bool
is_zero (pos n) = n == 0
is_zero (negsuc n) = false

-- `restoreWidth` with the number of the outline's setting. With `NaN` the content does not test as
-- short, and the outline's styles of `NaNpx` are no lengths, so that they stay as they are.
abbrev restore_parsed : Host → ℤ → Option ℤ → Page → Page
restore_parsed h l none p = show_hide_nav_bar h (apply_left h (max_ℤ min_panel_width l) p)
restore_parsed h l (some r) p = restore_width h l r p

-- `if (width)`: 0 and `NaN` count as no width.
abbrev start_widths : Host → (width pagenav : Option ℤ) → Page → Page
start_widths h none pagenav p = resize_width h false p
start_widths h (some width) pagenav p =
    if is_zero width
    then resize_width h false p
    else restore_parsed h (width +ℤ bar_width) pagenav p

-- The start of the panels from the saved settings.
unfoldable pub init_widths : Host → Page → Page
unfolding parse_int apply_left
init_widths h p =
    start_widths h (parse_int (setting_or p.saved_width)) (parse_int (setting_or p.saved_pagenav)) p
