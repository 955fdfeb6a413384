-- ===== src/NavTree/Tree/Steps.antt =====
-- docs/navtree.js, `showNode` and `expandNode`: single steps on a tree that matches its entry.
use Prim.Native.String.{String}
use async_fw.Base.{
  ℕ, zero, suc, ◌≡◌, refl, ap, ◌∙◌, subst, Bool, true, false, Option, none, some, List, [], ◌∷◌,
  inl, inr,
}
use async_fw.NavTree.Entries.{Entry, entry, Children, leaf, script, items, Entries}
use async_fw.NavTree.Walk.{nth, children}
use async_fw.NavTree.Tree.{
  Node, node, Nodes, get_node, nth_node, put_node, set_data, Outcome, selected, show_node, put_data,
  find_data, load_all,
}
use async_fw.NavTree.Tree.Loading.{nth-put_node, put-put_node}
use async_fw.NavTree.Tree.Matches.{
  Matches, AllMatch, AllMatch-put, get_node-AllMatch, opened-Matches, named, finish_at-Matches,
  data_of, IsListed, IsShownAt,
}

-- What showing a place should come to: the node at the place is handed over for selection, the nodes
-- on the way are open, and the tree is still that of the entry.
abbrev pub IsDone : List (String × Entries) → Entry → ℕ → List ℕ → Entry → Node × Outcome → Type 0
IsDone m e i is x s = (s.1 ≡ selected (i ∷ is)) × IsShownAt s.0 i is x × Matches m s.0 e

pub load_all-selected :
    (m : List (String × Entries)) (opens : Bool) (f i : ℕ) (is : List ℕ) (n : Node) (p : List ℕ)
    → load_all m opens f i is (n, selected p) ≡ (n, selected p)
unfolding load_all
load_all-selected m opens zero i is n p = refl
load_all-selected m opens (suc f) i is n p = refl

module _ (m : List (String × Entries)) (opens : Bool) (e : Entry) (i : ℕ) where
  -- The last step, with the last node's own script loaded or not needed.
  pub show_node_selected :
      (t : String) (l : Option String) (es : Entries) (v b : Bool) (k : Nodes) (t' : String)
      (l' : Option String) (c : Children) (v' b' : Bool) (k' : Nodes) (x : Entry)
      → Matches m (node t l (items es) v b k) e
      → nth es i ≡ some x
      → nth_node (get_node es v k) i ≡ some (node t' l' c v' b' k')
      → Matches m (node t' l' c v' b' k') x
      → ((name : String) → ¬ (c ≡ script name))
      → (n : Node) × (show_node opens i [] (node t l (items es) v b k) ≡ (n, selected (i ∷ [])))
        × IsDone m e i [] x (n, selected (i ∷ []))
  unfolding show_node
  show_node_selected t l es v b k t' l' c v' b' k' (entry t'' l'' c'') h at here p w =
      let (n', done, q) = finish_at-Matches m opens t' l' c v' b' k' (entry t'' l'' c'') w p in
      let k'' = put_node (get_node es v k) i n' in
      let (v1, e1, d1, k1, shape) = named m n' t'' l'' c'' q in
      let all =
        AllMatch-put m (get_node es v k) es i (entry t'' l'' c'') n'
          (get_node-AllMatch m t l es v b k e h) at q in
      (
        node t l (items es) true true k'',
        rw (show_node, here, done) refl,
        (
          refl,
          (refl, v1, e1, d1, k1, nth-put_node (get_node es v k) i _ n' here ∙ ap some shape),
          opened-Matches m t l es v b true k k'' e h all,
        ),
      )

  -- A node that waits for a script, and what its script makes of it.
  pub arrived-Matches :
      (t : String) (l : Option String) (name : String) (v b : Bool) (k : Nodes) (x : Entry)
      (fs : Entries)
      → Matches m (node t l (script name) v b k) x
      → find_data m name ≡ some fs
      → Matches m (node t l (items fs) v b k) x
  unfolding AllMatch
  arrived-Matches t l name false b k (entry t' l' leaf) fs h found = absurd (cc h.2)
  arrived-Matches t l name false b k (entry t' l' (items es)) fs h found = absurd (cc h.2)
  arrived-Matches t l name false b k (entry t' l' (script other)) fs (p, q, inl same) found =
      (p, q, inr (fs, cc, refl))
  arrived-Matches t l name false b k (entry t' l' (script other)) fs (p, q, inr (es, r, o)) found =
      absurd (cc o)
  arrived-Matches t l name true b k (entry t' l' c') fs h found = absurd (cc h)

  -- The script that a waiting node names is the one of the entry.
  pub listed-of_Matches :
      (t : String) (l : Option String) (name : String) (v b : Bool) (k : Nodes) (x : Entry)
      → Matches m (node t l (script name) v b k) x
      → children x ≡ script name
  unfolding AllMatch
  listed-of_Matches t l name false b k (entry t' l' leaf) h = absurd (cc h.2)
  listed-of_Matches t l name false b k (entry t' l' (items es)) h = absurd (cc h.2)
  listed-of_Matches t l name false b k (entry t' l' (script other)) (p, q, inl same) = cc same
  listed-of_Matches t l name false b k (entry t' l' (script other)) (p, q, inr (es, r, o)) =
      absurd (cc o)
  listed-of_Matches t l name true b k (entry t' l' c') h = absurd (cc h)

pub put_data-put_node :
    (d : Children) (k : Nodes) (i : ℕ) (n : Node)
    → nth_node k i ≡ some n
    → put_data d i (put_node k i n) ≡ put_node k i (set_data d n)
put_data-put_node d k i n h =
    rw (put_data, nth-put_node k i n n h, put-put_node k i n (set_data d n)) refl

pub data_of-Matches :
    (m : List (String × Entries)) (t : String) (l : Option String) (es : Entries) (v b : Bool)
    (k : Nodes) (e : Entry)
    → Matches m (node t l (items es) v b k) e
    → data_of m (children e) ≡ some es
unfolding AllMatch
data_of-Matches m t l es false b k (entry t' l' leaf) h = absurd (cc h.2)
data_of-Matches m t l es false b k (entry t' l' (items fs)) h = cc h.2
data_of-Matches m t l es false b k (entry t' l' (script name)) (p, q, inl o) = absurd (cc o)
data_of-Matches m t l es false b k (entry t' l' (script name)) (p, q, inr (fs, r, o)) = cc (r, o)
data_of-Matches m t l es true b k (entry t' l' leaf) h = absurd (cc h.2)
data_of-Matches m t l es true b k (entry t' l' (items fs)) h = cc h.2
data_of-Matches m t l es true b k (entry t' l' (script name)) (p, q, inl o, a) = absurd (cc o)
data_of-Matches m t l es true b k (entry t' l' (script name)) (p, q, inr (fs, r, o), a) = cc (r, o)

pub leaf-Matches :
    (m : List (String × Entries)) (t : String) (l : Option String) (v b : Bool) (k : Nodes)
    (e : Entry)
    → Matches m (node t l leaf v b k) e
    → data_of m (children e) ≡ none
unfolding AllMatch
leaf-Matches m t l false b k (entry t' l' leaf) h = refl
leaf-Matches m t l false b k (entry t' l' (items fs)) h = absurd (cc h.2)
leaf-Matches m t l false b k (entry t' l' (script name)) (p, q, inl o) = absurd (cc o)
leaf-Matches m t l false b k (entry t' l' (script name)) (p, q, inr (fs, r, o)) = absurd (cc o)
leaf-Matches m t l true b k (entry t' l' c') h = absurd (cc h)

pub IsListed-script :
    (m : List (String × Entries)) (c : Children) (name : String)
    → c ≡ script name
    → IsListed m c
    → (fs : Entries) × (find_data m name ≡ some fs)
IsListed-script m c name e h = subst (IsListed m) e h
