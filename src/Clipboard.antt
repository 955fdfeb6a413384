-- ===== src/Clipboard.antt =====
-- docs/clipboard.js: the button that copies a listing.
pub mod Lines
mod Tests
use async_fw.Base.{
  ℕ, suc, ◌+◌, ◌-◌, Bool, true, false, ◌&&◌, ◌||◌, Option, none, some, List, [], ◌∷◌, ◌++◌,
  if◌then◌else◌, ◌==◌,
}
use async_fw.Base.Text.{Text}
use async_fw.Base.Spaces.{is_space}

mutual
  -- A node of the page: text, or an element with the classes that count here.
  pub data Node : Type 0 where
    text : Text → Node
    element : (lineno ttc foldclosed : Bool) → Nodes → Node

  pub data Nodes : Type 0 where
    no_nodes : Nodes
    add : Node → Nodes → Nodes

-- The copy without the elements `.lineno`, `.ttc` and `.foldclosed`.
unfoldable mutual
  pub remove_marked : Nodes → Nodes
  remove_marked no_nodes = no_nodes
  remove_marked (add n ns) = remove_from n (remove_marked ns)

  pub remove_from : Node → Nodes → Nodes
  remove_from (text t) ns = add (text t) ns
  remove_from (element l t f ks) ns =
      let kept = remove_marked ks in if l || (t || f) then ns else add (element l t f kept) ns

unfoldable mutual
  pub text_content : Nodes → Text
  text_content no_nodes = []
  text_content (add n ns) = node_text n ++ text_content ns

  pub node_text : Node → Text
  node_text (text t) = t
  node_text (element l t f ks) = text_content ks

-- What `^` takes for the end of a line.
abbrev pub is_terminator : ℕ → Bool
is_terminator c = c == b'\n' || (c == 0xd || (c == 0x2028 || c == 0x2029))

-- Whether the blanks ahead have a newline in them.
unfoldable pub blank_ahead : Text → Bool
unfolding is_space
blank_ahead [] = false
blank_ahead (c ∷ t) = is_space c && (c == b'\n' || blank_ahead t)

-- `replace(/^\s*\n/gm,'\n')`, at the start of a line or within one. At a start the blanks up to the
-- last newline among them go, since `\s*` takes newlines too.
unfoldable pub clean_lines : Bool → Text → Text
unfolding blank_ahead
clean_lines start [] = []
clean_lines start (c ∷ t) =
    let dropped = clean_lines true t in
    let kept = c ∷ clean_lines (is_terminator c) t in
    if start && (is_space c && blank_ahead t) then dropped else kept

abbrev is_empty : Text → Bool
is_empty [] = true
is_empty (_ ∷ _) = false

-- `replace(/\n*$/,'')`
unfoldable pub drop_newlines : Text → Text
drop_newlines [] = []
drop_newlines (c ∷ t) =
    let rest = drop_newlines t in if c == b'\n' && is_empty rest then [] else c ∷ rest

unfoldable pub copied_text : Nodes → Text
unfolding remove_marked text_content clean_lines drop_newlines
copied_text ns = drop_newlines (clean_lines true (text_content (remove_marked ns)))

-- What was written last, whether the button shows `success`, and the timeouts to come.
pub record Button : Type 0 where
  pub written : Option Text
  pub success : Bool
  pub timeouts : ℕ

unfoldable pub click : Nodes → Button → Button
unfolding copied_text
click ns b = record { written = some (copied_text ns); success = true; timeouts = suc b.timeouts }

unfoldable pub timeout : Button → Button
timeout b = record b { success = false; timeouts = b.timeouts - 1 }
