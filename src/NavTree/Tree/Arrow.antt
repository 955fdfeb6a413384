-- ===== src/NavTree/Tree/Arrow.antt =====
-- docs/navtree.js, `createIndent`: a click on the arrow of a node, anywhere in the tree.
use Prim.Native.String.{String}
use async_fw.Base.{
  ℕ, zero, suc, ◌+◌, ◌≤◌, ◌≡◌, refl, sym, subst, ◌⊎◌, Bool, true, false, Option, none, some, List,
  [], ◌∷◌, length,
}
use async_fw.NavTree.Entries.{Entry, entry, leaf, script, items, Entries, end, ◌⨾◌}
use async_fw.NavTree.Walk.{children, walk}
use async_fw.NavTree.Tree.{
  Node, node, Nodes, no_nodes, add, new_nodes, get_node, set_data, expand_node, find_data, selected,
  show_node, load_all,
}
use async_fw.NavTree.Tree.Matches.{
  IsListed, IsShownAt, Matches, AllMatch, get_node-AllMatch, opened-Matches, new_nodes-AllMatch,
}
use async_fw.NavTree.Tree.Steps.{arrived-Matches}
use async_fw.NavTree.Tree.Pages.{load_all-walk}
use async_fw.NavTree.Tree.Select.{is_addressed, selected_items, selected_items-IsShownAt}
use async_fw.Base.Text.{Text}
use mathlib.Core.List.{Mem}

-- `expandToggle.onclick`: an expanded node is folded, another one expanded.
abbrev fold_or_expand : Node → Node
fold_or_expand (node t l c v true k) = node t l c v false k
fold_or_expand (node t l c v false k) = expand_node (node t l c v false k)

-- What the `onload` of the script does, if the script is there.
abbrev expand_with : Option Entries → Node → Node
expand_with none n = n
expand_with (some es) n = expand_node (set_data (items es) n)

-- A script that the node names runs first, if the site has it.
unfoldable pub click_arrow : List (String × Entries) → Node → Node
unfolding find_data
click_arrow m (node t l leaf v b k) = fold_or_expand (node t l leaf v b k)
click_arrow m (node t l (items es) v b k) = fold_or_expand (node t l (items es) v b k)
click_arrow m (node t l (script name) v true k) = fold_or_expand (node t l (script name) v true k)
click_arrow m (node t l (script name) v false k) =
    expand_with (find_data m name) (node t l (script name) v false k)

-- The arrow of the node at a place below, if the node is there.
unfoldable mutual
  unfolding click_arrow

  pub click_at : List (String × Entries) → List ℕ → Node → Node
  click_at m [] n = click_arrow m n
  click_at m (i ∷ is) (node t l c v b k) = node t l c v b (click_below m i is k)

  pub click_below : List (String × Entries) → ℕ → List ℕ → Nodes → Nodes
  click_below m i is no_nodes = no_nodes
  click_below m zero is (add n k) = add (click_at m is n) k
  click_below m (suc i) is (add n k) = add n (click_below m i is k)

unfoldable pub click_all : List (String × Entries) → List (List ℕ) → Node → Node
unfolding click_at
click_all m [] n = n
click_all m (p ∷ ps) n = click_all m ps (click_at m p n)

module _ (m : List (String × Entries)) where
  click_arrow-Matches : (n : Node) (x : Entry) → Matches m n x → Matches m (click_arrow m n) x
  unfolding click_arrow Matches
  click_arrow-Matches (node t l leaf false true k) (entry t' l' c') h = h
  click_arrow-Matches (node t l leaf false false k) (entry t' l' c') h = h
  click_arrow-Matches (node t l leaf true b k) (entry t' l' c') h = absurd (cc h)
  click_arrow-Matches (node t l (items es) false true k) (entry t' l' c') h = h
  click_arrow-Matches (node t l (items es) true true k) (entry t' l' c') h = h
  click_arrow-Matches (node t l (items es) v false k) (entry t' l' c') h =
      opened-Matches m t l es v false true k (get_node es v k) (entry t' l' c') h
        (get_node-AllMatch m t l es v false k (entry t' l' c') h)
  click_arrow-Matches (node t l (script name) true b k) (entry t' l' c') h = absurd (cc h)
  click_arrow-Matches (node t l (script name) false true k) (entry t' l' c') h = h
  click_arrow-Matches (node t l (script name) false false k) (entry t' l' c') h =
      with_script (find_data m name) refl
    where
      with_script :
          (o : Option Entries)
          → find_data m name ≡ o
          → Matches m (expand_with o (node t l (script name) false false k)) (entry t' l' c')
      with_script none e = h
      with_script (some es) e =
          let now =
            arrived-Matches m false (entry t' l' c') 0 t l name false false k (entry t' l' c') es h
              e in
          opened-Matches m t l es false false true k (new_nodes es) (entry t' l' c') now
            (new_nodes-AllMatch m es)

  click_below-AllMatch :
      (is : List ℕ) (i : ℕ) (k : Nodes) (es : Entries)
      → ((n : Node) (x : Entry) → Matches m n x → Matches m (click_at m is n) x)
      → AllMatch m k es
      → AllMatch m (click_below m i is k) es
  unfolding click_at Matches
  click_below-AllMatch is i no_nodes es keep h = h
  click_below-AllMatch is i (add n k) end keep h = absurd (cc h)
  click_below-AllMatch is zero (add n k) (x ⨾ es) keep h = (keep n x h.0, h.1)
  click_below-AllMatch is (suc i) (add n k) (x ⨾ es) keep h =
      (h.0, click_below-AllMatch is i k es keep h.1)

  click_at-Matches :
      (is : List ℕ) (n : Node) (x : Entry) → Matches m n x → Matches m (click_at m is n) x
  unfolding click_at Matches
  click_at-Matches [] n x h = click_arrow-Matches n x h
  click_at-Matches (i ∷ is) (node t l c false b k) (entry t' l' c') h = h
  click_at-Matches (i ∷ is) (node t l leaf true b k) (entry t' l' c') h = absurd (cc h)
  click_at-Matches (i ∷ is) (node t l (script name) true b k) (entry t' l' c') h = absurd (cc h)
  click_at-Matches (i ∷ is) (node t l (items es) true b k) (entry t' l' c') h =
      (h.0, h.1, h.2, click_below-AllMatch is i k es (click_at-Matches is) h.3)

  click_all-Matches :
      (ps : List (List ℕ)) (n : Node) (x : Entry) → Matches m n x → Matches m (click_all m ps n) x
  unfolding click_all
  click_all-Matches [] n x h = h
  click_all-Matches (p ∷ ps) n x h =
      click_all-Matches ps (click_at m p n) x (click_at-Matches p n x h)

  -- After any clicks on arrows in a tree that matches the tables, wherever they are, showing a place,
  -- with the scripts of the site, ends with the node at this place handed over for selection, if the
  -- plain walk through the tables finds an entry there and a script that the entry names is on the
  -- site: the nodes on the way are open, the last one has the label and the link of the entry, and
  -- the tree matches the tables. With no hash, or where the class of the entry's link ends in the
  -- address of the page and the hash, the item at this place is among those selected. At most one
  -- script more than the place has steps is loaded.
  pub load_all-click_all :
      (ps : List (List ℕ)) (opens : Bool) (e : Entry) (i : ℕ) (is : List ℕ) (n : Node) (x : Entry)
      (f : ℕ) (path hash : Text)
      → Matches m n e
      → walk m e (i ∷ is) ≡ some x
      → IsListed m (children x)
      → length is + 2 ≤ f
      → let s = load_all m opens f i is (show_node opens i is (click_all m ps n)) in
        (s.1 ≡ selected (i ∷ is))
        × IsShownAt s.0 i is x
        × Matches m s.0 e
        × ((is_addressed path hash x ≡ false) ⊎ Mem (i ∷ is) (selected_items path hash s))
  load_all-click_all ps opens e i is n x f path hash h w listed le =
      let s = load_all m opens f i is (show_node opens i is (click_all m ps n)) in
      let (handed, shown, matched) =
        load_all-walk m opens e i is (click_all m ps n) x f (click_all-Matches ps n e h) w listed
          le in
      (
        handed,
        shown,
        matched,
        subst
            (λ o.
              (is_addressed path hash x ≡ false) ⊎ Mem (i ∷ is) (selected_items path hash (s.0, o)))
            (sym handed) (selected_items-IsShownAt path hash s.0 i is x shown),
      )
