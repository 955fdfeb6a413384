-- ===== src/CodeFold/Tests.antt =====
-- docs/dynsections.js, `codefold`: a listing with two parts.
use async_fw.Base.{◌≡◌, refl, true, false, List, [], ◌∷◌, All, not}
use async_fw.Base.Text.{codes, text_eq}
use async_fw.CodeFold.{Part, Click, on_all, on_fold, strip_start, init, toggle_all, run}
use async_fw.CodeFold.Run.{IsValid, run-init-IsValid, Shows, toggle_all-Shows}

abbrev parts : List Part
parts =
    record {
      id = codes "00007";
      first_line = codes "class A { ";
      start = codes "{";
      end_text = codes "};";
    }
    ∷ record {
      id = codes "00009";
      first_line = codes "int f() {";
      start = codes "{";
      end_text = codes "}";
    }
    ∷ []

abbrev clicks : List Click
clicks = on_fold (codes "00009") ∷ on_all ∷ on_all ∷ on_fold (codes "00007") ∷ []

brace_is_stripped : strip_start (codes "{") (codes "class A { ") ≡ codes "class A"
unfolding strip_start
brace_is_stripped = refl

line_with_more_is_kept : strip_start (codes "{") (codes "a { b") ≡ codes "a { b"
unfolding strip_start
line_with_more_is_kept = refl

last_clicked_is_shut :
    (run clicks (init parts)).folds
    ≡ record {
      id = codes "00007";
      open_shown = false;
      closed_shown = true;
      closed_plus = true;
      closed_line = codes "class A {<a href=\"javascript:codefold.toggle('00007')\">&#8230;</a>};";
    }
      ∷ record {
        id = codes "00009";
        open_shown = true;
        closed_shown = false;
        closed_plus = true;
        closed_line = codes "int f() {<a href=\"javascript:codefold.toggle('00009')\">&#8230;</a>}";
      }
      ∷ []
unfolding run init text_eq
last_clicked_is_shut = refl

run-init-IsValid_example : IsValid (run clicks (init parts))
run-init-IsValid_example = run-init-IsValid parts clicks

toggle_all-Shows_example : All (Shows (not (init parts).opened)) (toggle_all (init parts)).folds
toggle_all-Shows_example = toggle_all-Shows (init parts)
