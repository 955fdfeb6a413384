-- ===== src/NavTree/Tree/Select.antt =====
-- docs/navtree.js, `selectAndHighlight`: the items that get the class `selected` when a call of
-- `showNode` ends. Scrolling to the item and to the anchor is not modelled.
use Prim.Native.String.{String}
use mathlib.Core.Option.{some-injective}
use mathlib.Core.List.{
  Mem, mem-cons_self, mem-cons_of_mem, mem-append_right, mem-append_left, mem-map_of_mem,
}
use async_fw.Base.{
  ℕ, zero, suc, ◌≡◌, refl, sym, subst, ◌⊎◌, inl, inr, Bool, true, false, ◌||◌, Option, none, some,
  List, [], ◌∷◌, ◌++◌, map, if◌then◌else◌, ◌==◌, Bool-cases,
}
use async_fw.Base.Text.{Text, codes, text_eq}
use async_fw.NavTree.Paths.{strip_path, path_name}
use async_fw.NavTree.Entries.{Entry, entry, Children, leaf, script, items}
use async_fw.NavTree.Walk.{link_of}
use async_fw.NavTree.Links.{link_class}
use async_fw.NavTree.Tree.{
  Node, node, Nodes, no_nodes, add, nth_node, Outcome, selected, unselected, failed, waits,
}
use async_fw.NavTree.Tree.Matches.{IsShownAt}

-- The class of the link of an item with this link, if any; `kids` tells whether it has
-- `childrenData`. A link that starts with "^" leads out of the site.
abbrev class_of_text : (kids : Bool) → Text → Text
class_of_text kids [] = if kids then codes "nolink" else []
class_of_text kids (c ∷ t) = if c == b'^' then link_class t else link_class (c ∷ t)

abbrev class_of : (kids : Bool) → Option String → Text
class_of kids none = if kids then codes "nolink" else []
class_of kids (some l) = class_of_text kids (codes l)

abbrev has_data : Children → Bool
has_data leaf = false
has_data (script name) = true
has_data (items es) = true

abbrev item_class : Node → Text
item_class (node t l c v e k) = class_of (has_data c) l

-- `[class$="…"]`
unfoldable pub ends_with : Text → Text → Bool
unfolding text_eq
ends_with p [] = text_eq p []
ends_with p (c ∷ t) = let rest = ends_with p t in text_eq p (c ∷ t) || rest

-- `stripPath(pathName())+':'+hash.substring(1)`, where `name` is the hash without its "#".
unfoldable pub address : (path name : Text) → Text
unfolding strip_path path_name
address path name = strip_path (path_name path) ++ b':' ∷ name

abbrev next_place : List ℕ → List ℕ
next_place [] = []
next_place (i ∷ p) = suc i ∷ p

-- The places of the items below a node whose class ends in `a`, in the order of the page.
unfoldable mutual
  unfolding ends_with link_class

  pub found_in : Text → Node → List (List ℕ)
  found_in a (node t l c v e k) = found_among a k

  pub found_among : Text → Nodes → List (List ℕ)
  found_among a no_nodes = []
  found_among a (add n k) =
      let below = map (0 ∷◌) (found_in a n) in
      let later = map next_place (found_among a k) in
      (if ends_with a (item_class n) then (0 ∷ []) ∷ below else below) ++ later

-- The items that are found, or else the one that was handed over.
abbrev or_handed : List (List ℕ) → Option (List ℕ) → List (List ℕ)
or_handed [] none = []
or_handed [] (some p) = p ∷ []
or_handed (q ∷ qs) handed = q ∷ qs

unfoldable pub select_and_highlight : (path hash : Text) → Node → Option (List ℕ) → List (List ℕ)
unfolding found_in address
select_and_highlight path [] n handed = or_handed [] handed
select_and_highlight path (c ∷ name) n handed = or_handed (found_in (address path name) n) handed

-- The items selected at the end of a call on the page at `path`.
unfoldable pub selected_items : (path hash : Text) → Node × Outcome → List (List ℕ)
unfolding select_and_highlight
selected_items path hash (n, selected p) = select_and_highlight path hash n (some p)
selected_items path hash (n, unselected) = select_and_highlight path hash n none
selected_items path hash (n, failed) = []
selected_items path hash (n, waits w d name) = []

-- There is no hash, or the address leads to the link of the entry.
abbrev pub is_addressed : (path hash : Text) → Entry → Bool
is_addressed path [] x = true
is_addressed path (c ∷ name) x = ends_with (address path name) (class_of false (link_of x))

address_filled : (path name : Text) → text_eq (address path name) [] ≡ false
unfolding address text_eq
address_filled path name = filled (strip_path (path_name path))
  where
    filled : (s : Text) → text_eq (s ++ b':' ∷ name) [] ≡ false
    filled [] = refl
    filled (c ∷ s) = refl

-- An item with a class that is not empty has it with and without children.
ends_with-class_of :
    (a : Text) (kids : Bool) (l : Option String)
    → text_eq a [] ≡ false
    → ends_with a (class_of false l) ≡ true
    → ends_with a (class_of kids l) ≡ true
unfolding ends_with
ends_with-class_of a kids none f h = absurd (cc)
ends_with-class_of a kids (some l) f h = by_text (codes l) h
  where
    by_text :
        (t : Text)
        → ends_with a (class_of_text false t) ≡ true
        → ends_with a (class_of_text kids t) ≡ true
    by_text [] g = absurd (cc)
    by_text (c ∷ t) g = g

module _ (a : Text) where
  found_among-here :
      (k : Nodes) (i : ℕ) (n : Node)
      → nth_node k i ≡ some n
      → ends_with a (item_class n) ≡ true
      → Mem (i ∷ []) (found_among a k)
  unfolding found_in
  found_among-here no_nodes i n e h = absurd (cc)
  found_among-here (add b k) zero n e h =
      let h' : ends_with a (item_class b) ≡ true =
        subst (λ z. ends_with a (item_class z) ≡ true) (sym (some-injective b n e)) h in
      rw h' mem-cons_self
  found_among-here (add b k) (suc i) n e h =
      mem-append_right
        (if ends_with a (item_class b)
          then (0 ∷ []) ∷ map (0 ∷◌) (found_in a b)
          else map (0 ∷◌) (found_in a b))
        (mem-map_of_mem next_place (found_among-here k i n e h))

  found_among-below :
      (k : Nodes) (i : ℕ) (n : Node) (p : List ℕ)
      → nth_node k i ≡ some n
      → Mem p (found_in a n)
      → Mem (i ∷ p) (found_among a k)
  unfolding found_in
  found_among-below no_nodes i n p e h = absurd (cc)
  found_among-below (add b k) zero n p e h =
      let deep : Mem (0 ∷ p) (map (0 ∷◌) (found_in a b)) =
        mem-map_of_mem (0 ∷◌) (subst (λ z. Mem p (found_in a z)) (sym (some-injective b n e)) h) in
      mem-append_left (map next_place (found_among a k))
        (elim (Bool-cases (ends_with a (item_class b))) [
          | inl here ↦ rw here (mem-cons_of_mem (0 ∷ []) deep)
          | inr other ↦ rw other deep
        ])
  found_among-below (add b k) (suc i) n p e h =
      mem-append_right
        (if ends_with a (item_class b)
          then (0 ∷ []) ∷ map (0 ∷◌) (found_in a b)
          else map (0 ∷◌) (found_in a b))
        (mem-map_of_mem next_place (found_among-below k i n p e h))

  -- The item of a shown entry is among those that its class finds.
  found_in-IsShownAt :
      (is : List ℕ) (n : Node) (i : ℕ) (x : Entry)
      → text_eq a [] ≡ false
      → IsShownAt n i is x
      → ends_with a (class_of false (link_of x)) ≡ true
      → Mem (i ∷ is) (found_in a n)
  unfolding found_in
  found_in-IsShownAt [] (node t l c v e k) i (entry t' l' c') f (opened, v', e', d, k', here) h =
      found_among-here k i (node t' l' d v' e' k') here (ends_with-class_of a (has_data d) l' f h)
  found_in-IsShownAt (j ∷ js) (node t l c v e k) i x f (opened, n, here, shown) h =
      found_among-below k i n (j ∷ js) here (found_in-IsShownAt js n j x f shown h)

Mem-or_handed :
    (ps : List (List ℕ)) (p : List ℕ) (o : Option (List ℕ)) → Mem p ps → Mem p (or_handed ps o)
Mem-or_handed [] p none h = h
Mem-or_handed [] p (some q) h = mem-cons_of_mem q h
Mem-or_handed (q ∷ qs) p o h = h

-- The item of a shown entry that was handed over is selected, if the address leads to it.
pub selected_items-IsShownAt :
    (path hash : Text) (n : Node) (i : ℕ) (is : List ℕ) (x : Entry)
    → IsShownAt n i is x
    → (is_addressed path hash x ≡ false)
      ⊎ Mem (i ∷ is) (selected_items path hash (n, selected (i ∷ is)))
unfolding selected_items
selected_items-IsShownAt path [] n i is x shown = inr mem-cons_self
selected_items-IsShownAt path (c ∷ name) n i is x shown =
    elim (Bool-cases (is_addressed path (c ∷ name) x)) [
      | inl found ↦ inr (
          Mem-or_handed (found_in (address path name) n) (i ∷ is) (some (i ∷ is)) (
            found_in-IsShownAt (address path name) is n i x (address_filled path name) shown found))
      | inr other ↦ inl other
    ]
