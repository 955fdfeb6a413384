-- ===== src/NavTree/Tree/Pages.antt =====
-- docs/navtree.js, `showNode`: the places of the index, by the plain walk through the tables.
use mathlib.Core.Option.{some-injective, none-ne-some}
use Prim.Native.String.{String}
use text.Mathlib.Text.{◌==◌ as str_eq}
use async_fw.Base.{
  ℕ, ◌+◌, ◌≤◌, ◌≡◌, refl, sym, ap, ◌∙◌, Bool, Option, none, some, List, [], ◌∷◌, length, Bool-cases,
  Option-cases, inl, inr,
}
use async_fw.NavTree.Entries.{Entry, Children, leaf, script, items, Entries}
use async_fw.NavTree.Walk.{nth, children, find_script, loaded, walk}
use async_fw.NavTree.Tree.{Node, selected, show_node, find_data, load_all}
use async_fw.NavTree.Tree.Matches.{Matches, data_of, IsListed, LeadsIn, IsShownAt}
use async_fw.NavTree.Tree.Shown.{load_all-show_node}

-- What a listed script defines; a script that is not listed has no entries.
find_script-find_data :
    (m : List (String × Entries)) (name : String) (i : ℕ) (x : Entry)
    → nth (find_script m name) i ≡ some x
    → find_data m name ≡ some (find_script m name)
unfolding nth find_script find_data
find_script-find_data [] name i x e = absurd (cc)
find_script-find_data ((k, es) ∷ m) name i x e = elim (Bool-cases (str_eq k name)) [
  | inl b ↦ rw b refl
  | inr b ↦ simp b (find_script-find_data m name i x (rw b at e))
]

loaded-data_of :
    (m : List (String × Entries)) (c : Children) (i : ℕ) (x : Entry)
    → nth (loaded m c) i ≡ some x
    → data_of m c ≡ some (loaded m c)
unfolding loaded nth
loaded-data_of m leaf i x e = absurd (cc)
loaded-data_of m (script name) i x e = find_script-find_data m name i x e
loaded-data_of m (items es) i x e = refl

-- What the walk gives when a place has one more step.
abbrev walk_on : List (String × Entries) → Option Entry → List ℕ → Option Entry
walk_on m none is = none
walk_on m (some c) is = walk m c is

walk-step :
    (m : List (String × Entries)) (e : Entry) (i : ℕ) (is : List ℕ)
    → walk m e (i ∷ is) ≡ walk_on m (nth (loaded m (children e)) i) is
unfolding walk
walk-step m e i is = elim (Option-cases (nth (loaded m (children e)) i)) [
  | inl n ↦ rw (walk, n) refl
  | inr (c, n) ↦ rw (walk, n) refl
]

LeadsIn-walk :
    (m : List (String × Entries)) (is : List ℕ) (e : Entry) (i : ℕ) (x : Entry)
    → walk m e (i ∷ is) ≡ some x
    → IsListed m (children x)
    → (data_of m (children e) ≡ some (loaded m (children e)))
      × LeadsIn m (loaded m (children e)) i is x
unfolding walk
LeadsIn-walk m [] e i x w h = elim (Option-cases (nth (loaded m (children e)) i)) [
  | inl n ↦
      absurd (none-ne-some x (ap (λ o. walk_on m o []) (sym n) ∙ sym (walk-step m e i []) ∙ w))
  | inr (c, n) ↦
      let same : c ≡ x =
        some-injective c x (ap (λ o. walk_on m o []) (sym n) ∙ sym (walk-step m e i []) ∙ w) in
      (loaded-data_of m (children e) i c n, (n ∙ ap some same, h))
]
LeadsIn-walk m (j ∷ js) e i x w h = elim (Option-cases (nth (loaded m (children e)) i)) [
  | inl n ↦
      absurd (
        none-ne-some x
          (ap (λ o. walk_on m o (j ∷ js)) (sym n) ∙ sym (walk-step m e i (j ∷ js)) ∙ w))
  | inr (c, n) ↦
      let rest =
        LeadsIn-walk m js c j x
          (ap (λ o. walk_on m o (j ∷ js)) (sym n) ∙ sym (walk-step m e i (j ∷ js)) ∙ w) h in
      (loaded-data_of m (children e) i c n, (c, loaded m (children c), n, rest.0, rest.1))
]

-- From any state of the tree that matches the tables, showing the place of an entry, with the
-- scripts of the site, hands the node at this place over for selection, if the plain walk through
-- the tables finds the entry there and a script that it names is on the site: the nodes on the way
-- are open, the last one has the label and the link of the entry, and the tree still matches the
-- tables. At most one script more than the place has steps is loaded.
pub load_all-walk :
    (m : List (String × Entries)) (opens : Bool) (e : Entry) (i : ℕ) (is : List ℕ) (n : Node)
    (x : Entry) (f : ℕ)
    → Matches m n e
    → walk m e (i ∷ is) ≡ some x
    → IsListed m (children x)
    → length is + 2 ≤ f
    → let s = load_all m opens f i is (show_node opens i is n) in
      (s.1 ≡ selected (i ∷ is)) × IsShownAt s.0 i is x × Matches m s.0 e
load_all-walk m opens e i is n x f h w listed le =
    let leads = LeadsIn-walk m is e i x w listed in
    load_all-show_node m opens e i is n x f h (loaded m (children e), leads.0, leads.1) le
