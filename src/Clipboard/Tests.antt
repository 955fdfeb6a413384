-- ===== src/Clipboard/Tests.antt =====
-- docs/clipboard.js: a listing with line numbers.
use async_fw.Base.{◌≡◌, refl, true, false, []}
use async_fw.Base.Text.{Text, codes, Free-of_all}
use async_fw.Base.Spaces.{is_space}
use async_fw.Clipboard.{Nodes, text, element, no_nodes, add, copied_text}
use async_fw.Clipboard.Lines.{
  filled_lines, ends_in, visible_text, is_tidy, copied_text-filled_lines,
}

abbrev lineno : Text → Nodes → Nodes
lineno t ns = add (element true false false (add (text t) no_nodes)) ns

abbrev line : Text → Nodes → Nodes
line t ns =
    add (element false false false (lineno (codes "    1") (add (text t) no_nodes)))
      (add (text (codes "\n")) ns)

abbrev listing : Nodes
listing =
    line (codes " int a;") (line [] (line (codes "  ") (line (codes " int b;") (line [] no_nodes))))

-- Of several blank lines one is left.
blank_lines_are_merged : copied_text listing ≡ codes " int a;\n\n int b;"
unfolding copied_text is_space
blank_lines_are_merged = refl

copied_text-filled_lines_example :
    (filled_lines (copied_text listing) ≡ filled_lines (visible_text listing))
    × (is_tidy false false false (copied_text listing) ≡ true)
    × (ends_in b'\n' (copied_text listing) ≡ false)
unfolding visible_text
copied_text-filled_lines_example = copied_text-filled_lines listing (
  Free-of_all 0xd (visible_text listing) refl,
  Free-of_all 0x2028 (visible_text listing) refl,
  Free-of_all 0x2029 (visible_text listing) refl,
)
