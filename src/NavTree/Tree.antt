-- ===== src/NavTree/Tree.antt =====
-- docs/navtree.js, `newNode`, `getNode`, `expandNode` and `showNode`: the nodes of the tree, which
-- are made and opened as they are shown, and the scripts that this waits for.
pub mod Loading
pub mod Matches
pub mod Steps
pub mod Shown
pub mod Pages
pub mod Select
pub mod Arrow
use Prim.Native.String.{String}
use text.Mathlib.Text.{◌==◌ as str_eq}
use async_fw.Base.{
  ℕ, zero, suc, Bool, true, false, Option, none, some, List, [], ◌∷◌, if◌then◌else◌,
}
use async_fw.NavTree.Entries.{Entry, entry, Children, leaf, script, items, Entries, end, ◌⨾◌}

mutual
  -- The label, the link, `childrenData`, `childrenVisited`, `expanded` and `children`.
  pub data Node : Type 0 where
    node : String → Option String → Children → Bool → Bool → Nodes → Node

  pub data Nodes : Type 0 where
    no_nodes : Nodes
    add : Node → Nodes → Nodes

-- `newNode`
abbrev pub new_node : Entry → Node
new_node (entry t l c) = node t l c false false no_nodes

abbrev pub new_nodes : Entries → Nodes
new_nodes end = no_nodes
new_nodes (e ⨾ es) = add (new_node e) (new_nodes es)

-- `getNode`, unless the node was visited.
abbrev pub get_node : Entries → Bool → Nodes → Nodes
get_node es false k = new_nodes es
get_node es true k = k

abbrev pub nth_node : Nodes → ℕ → Option Node
nth_node no_nodes i = none
nth_node (add n k) zero = some n
nth_node (add n k) (suc i) = nth_node k i

abbrev pub put_node : Nodes → ℕ → Node → Nodes
put_node no_nodes i m = no_nodes
put_node (add n k) zero m = add m k
put_node (add n k) (suc i) m = add n (put_node k i m)

abbrev pub set_data : Children → Node → Node
set_data d (node t l c v e k) = node t l d v e k

-- The node whose `childrenData` is still the name of a script.
pub data Waiting : Type 0 where
  own last : Waiting

-- How a call ends: with `selectAndHighlight` called for the node at a place below this one, or for
-- none, with an error, or with a script asked for by the call that is so many levels below.
pub data Outcome : Type 0 where
  selected : List ℕ → Outcome
  unselected failed : Outcome
  waits : Waiting → ℕ → String → Outcome

-- The outcome of the call for child `i`, and of the end of the path at that child.
abbrev pub deeper : ℕ → Outcome → Outcome
deeper i (selected p) = selected (i ∷ p)
deeper i unselected = unselected
deeper i failed = failed
deeper i (waits w d name) = waits w (suc d) name

abbrev pub at_child : ℕ → Outcome → Outcome
at_child i (selected p) = selected (i ∷ p)
at_child i unselected = unselected
at_child i failed = failed
at_child i (waits w d name) = waits w d name

-- `expandNode` on a node whose children are there or that has none.
abbrev pub expand_node : Node → Node
expand_node (node t l leaf v e k) = node t l leaf v e k
expand_node (node t l (script name) v e k) = node t l (script name) v e k
expand_node (node t l (items es) v true k) = node t l (items es) v true k
expand_node (node t l (items es) v false k) = node t l (items es) true true (get_node es v k)

-- The node that an opened list of children makes, with child `i` written back.
abbrev pub lift : String → Option String → Entries → Nodes → ℕ → Node × Outcome → Node × Outcome
lift t l es k i s = (node t l (items es) true true (put_node k i s.0), deeper i s.1)

-- The end of the path: the script of the last node is awaited, or the node is selected. `opens`
-- tells whether the page is one of those that also expand the last node.
abbrev pub finish_at : Bool → Node → Node × Outcome
finish_at opens (node t l (script name) v e k) = (node t l (script name) v e k, waits last 0 name)
finish_at opens (node t l leaf v e k) = (node t l leaf v e k, selected [])
finish_at opens (node t l (items es) v e k) = (
  if opens then expand_node (node t l (items es) v e k) else node t l (items es) v e k,
  selected [],
)

abbrev pub with_last :
    String → Option String → Entries → Nodes → ℕ → Node × Outcome → Node × Outcome
with_last t l es k i s = (node t l (items es) true true (put_node k i s.0), at_child i s.1)

-- `showNode` at a node, with `i` the next place of the breadcrumbs and `is` those after it.
unfoldable pub show_node : Bool → ℕ → List ℕ → Node → Node × Outcome
show_node opens i is (node t l leaf v e k) = (node t l leaf v e k, unselected)
show_node opens i is (node t l (script name) v e k) =
    (node t l (script name) v e k, waits own 0 name)
show_node opens i [] (node t l (items es) v e k) =
    let k' = get_node es v k in
    elim (nth_node k' i) [
      | none ↦ (node t l (items es) true true k', failed)
      | some n ↦ with_last t l es k' i (finish_at opens n)
    ]
show_node opens i (j ∷ js) (node t l (items es) v e k) =
    let k' = get_node es v k in
    elim (nth_node k' i) [
      | none ↦ (node t l (items es) true true k', unselected)
      | some n ↦ lift t l es k' i (show_node opens j js n)
    ]

abbrev put_data : Children → ℕ → Nodes → Nodes
put_data d i k = elim (nth_node k i) [ none ↦ k | some n ↦ put_node k i (set_data d n) ]

-- The data of the last node is set and its parent is taken for folded again.
abbrev pub set_last : Children → ℕ → Node → Node
set_last d i (node t l c v e k) = node t l c v false (put_data d i k)

-- What the `onload` of the script does at the node whose call asked for it.
abbrev pub arrived : Bool → Waiting → ℕ → List ℕ → Entries → Node → Node × Outcome
arrived opens own i is es n = show_node opens i is (set_data (items es) n)
arrived opens last i is es n = show_node opens i is (set_last (items es) i n)

-- The same from the root: the node stands `d` levels below, along the breadcrumbs.
unfoldable pub resume : Bool → Waiting → ℕ → ℕ → List ℕ → Entries → Node → Node × Outcome
unfolding show_node
resume opens w zero i is es n = arrived opens w i is es n
resume opens w (suc d) i [] es n = (n, failed)
resume opens w (suc d) i (j ∷ js) es (node t l leaf v e k) = (node t l leaf v e k, failed)
resume opens w (suc d) i (j ∷ js) es (node t l (script name) v e k) =
    (node t l (script name) v e k, failed)
resume opens w (suc d) i (j ∷ js) es (node t l (items fs) v e k) = elim (nth_node k i) [
  | none ↦ (node t l (items fs) v e k, failed)
  | some n ↦ (
    node t l (items fs) v e (put_node k i (resume opens w d j js es n).0),
    deeper i (resume opens w d j js es n).1,
  )
]

-- What the script of a name defines, if the site has it.
unfoldable pub find_data : List (String × Entries) → String → Option Entries
find_data [] name = none
find_data ((x, es) ∷ m) name = if str_eq x name then some es else find_data m name

-- Every script that is asked for arrives, if the site has it, until nothing is awaited.
unfoldable pub load_all :
    List (String × Entries) → Bool → ℕ → ℕ → List ℕ → Node × Outcome → Node × Outcome
unfolding resume find_data
load_all m opens zero i is s = s
load_all m opens (suc f) i is (n, selected p) = (n, selected p)
load_all m opens (suc f) i is (n, unselected) = (n, unselected)
load_all m opens (suc f) i is (n, failed) = (n, failed)
load_all m opens (suc f) i is (n, waits w d name) = elim (find_data m name) [
  | none ↦ (n, waits w d name)
  | some es ↦ load_all m opens f i is (resume opens w d i is es n)
]
