-- ===== src/NavTree/Tree/Matches.antt =====
-- docs/navtree.js: the tree of nodes as one of the entries of the tables.
use Prim.Native.String.{String}
use mathlib.Core.Option.{some-injective}
use async_fw.Base.{
  ℕ, zero, suc, ◌≡◌, ◌⊎◌, refl, sym, subst, Bool, true, false, Option, none, some, List, [], ◌∷◌,
  inl,
}
use async_fw.NavTree.Entries.{Entry, entry, Children, leaf, script, items, Entries, end, ◌⨾◌}
use async_fw.NavTree.Walk.{nth, children}
use async_fw.NavTree.Tree.{
  Node, node, Nodes, no_nodes, add, new_nodes, get_node, nth_node, put_node, selected, finish_at,
  find_data,
}

module _ (m : List (String × Entries)) where
  -- What `childrenData` may be: what the table has, or what its script has defined.
  abbrev pub IsData : Children → Children → Type 0
  IsData c leaf = c ≡ leaf
  IsData c (items es) = c ≡ items es
  IsData c (script name) =
      (c ≡ script name) ⊎ ((es : Entries) × (find_data m name ≡ some es) × (c ≡ items es))

  unfoldable mutual
    -- The node was made for the entry, and the children that it has for the entry's.
    pub Matches : Node → Entry → Type 0
    Matches (node t l c false e k) (entry t' l' c') = (t ≡ t') × (l ≡ l') × IsData c c'
    Matches (node t l leaf true e k) (entry t' l' c') = true ≡ false
    Matches (node t l (script name) true e k) (entry t' l' c') = true ≡ false
    Matches (node t l (items es) true e k) (entry t' l' c') =
        (t ≡ t') × (l ≡ l') × IsData (items es) c' × AllMatch k es

    pub AllMatch : Nodes → Entries → Type 0
    AllMatch no_nodes end = Unit
    AllMatch no_nodes (x ⨾ es) = true ≡ false
    AllMatch (add n k) end = true ≡ false
    AllMatch (add n k) (x ⨾ es) = Matches n x × AllMatch k es

  -- What the children of an entry are once its script has run.
  abbrev pub data_of : Children → Option Entries
  data_of leaf = none
  data_of (script name) = find_data m name
  data_of (items es) = some es

  -- The site has the script that the children name.
  abbrev pub IsListed : Children → Type 0
  IsListed leaf = Unit
  IsListed (items es) = Unit
  IsListed (script name) = (es : Entries) × (find_data m name ≡ some es)

  abbrev pub LeadsIn : Entries → ℕ → List ℕ → Entry → Type 0
  LeadsIn es i [] x = (nth es i ≡ some x) × IsListed (children x)
  LeadsIn es i (j ∷ js) x =
      (c : Entry) × (fs : Entries) × (nth es i ≡ some c)
      × (data_of (children c) ≡ some fs)
      × LeadsIn fs j js x

  -- The place leads from the entry to the entry `x`.
  abbrev pub Leads : Entry → ℕ → List ℕ → Entry → Type 0
  Leads e i is x = (es : Entries) × (data_of (children e) ≡ some es) × LeadsIn es i is x

-- The nodes along the place are open, and the last one has the label and the link of the entry.
abbrev pub IsShownAt : Node → ℕ → List ℕ → Entry → Type 0
IsShownAt (node t l c v e k) i [] (entry t' l' c') =
    (e ≡ true)
    × (v' e' : Bool) × (d : Children) × (k' : Nodes) × (nth_node k i ≡ some (node t' l' d v' e' k'))
IsShownAt (node t l c v e k) i (j ∷ js) x =
    (e ≡ true) × (n : Node) × (nth_node k i ≡ some n) × IsShownAt n j js x

module _ (m : List (String × Entries)) where
  pub AllMatch-nth :
      (k : Nodes) (es : Entries) (i : ℕ) (x : Entry)
      → AllMatch m k es
      → nth es i ≡ some x
      → (n : Node) × (nth_node k i ≡ some n) × Matches m n x
  unfolding nth AllMatch
  AllMatch-nth no_nodes end i x h e = absurd (cc)
  AllMatch-nth no_nodes (y ⨾ es) i x h e = absurd (cc)
  AllMatch-nth (add n k) end i x h e = absurd (cc)
  AllMatch-nth (add n k) (y ⨾ es) zero x h e =
      (n, refl, subst (Matches m n) (some-injective y x e) h.0)
  AllMatch-nth (add n k) (y ⨾ es) (suc i) x h e = AllMatch-nth k es i x h.1 e

  pub AllMatch-put :
      (k : Nodes) (es : Entries) (i : ℕ) (x : Entry) (n : Node)
      → AllMatch m k es
      → nth es i ≡ some x
      → Matches m n x
      → AllMatch m (put_node k i n) es
  unfolding nth AllMatch
  AllMatch-put no_nodes end i x n h e p = tt
  AllMatch-put no_nodes (y ⨾ es) i x n h e p = h
  AllMatch-put (add a k) end i x n h e p = absurd (cc)
  AllMatch-put (add a k) (y ⨾ es) zero x n h e p =
      (subst (Matches m n) (sym (some-injective y x e)) p, h.1)
  AllMatch-put (add a k) (y ⨾ es) (suc i) x n h e p = (h.0, AllMatch-put k es i x n h.1 e p)

  pub new_nodes-AllMatch : (es : Entries) → AllMatch m (new_nodes es) es
  unfolding AllMatch
  new_nodes-AllMatch end = tt
  new_nodes-AllMatch (entry t l c ⨾ es) = ((refl, refl, same c), new_nodes-AllMatch es)
    where
      same : (c : Children) → IsData m c c
      same leaf = refl
      same (items fs) = refl
      same (script name) = inl refl

  pub get_node-AllMatch :
      (t : String) (l : Option String) (es : Entries) (v b : Bool) (k : Nodes) (e : Entry)
      → Matches m (node t l (items es) v b k) e
      → AllMatch m (get_node es v k) es
  unfolding AllMatch
  get_node-AllMatch t l es false b k (entry t' l' c') h = new_nodes-AllMatch es
  get_node-AllMatch t l es true b k (entry t' l' c') h = h.3

  -- A node whose children are there stays a match when they are opened.
  pub opened-Matches :
      (t : String) (l : Option String) (es : Entries) (v b b' : Bool) (k k' : Nodes) (e : Entry)
      → Matches m (node t l (items es) v b k) e
      → AllMatch m k' es
      → Matches m (node t l (items es) true b' k') e
  unfolding AllMatch
  opened-Matches t l es false b b' k k' (entry t' l' c') h a = (h.0, h.1, h.2, a)
  opened-Matches t l es true b b' k k' (entry t' l' c') h a = (h.0, h.1, h.2, a)

  pub named :
      (n : Node) (t' : String) (l' : Option String) (c' : Children)
      → Matches m n (entry t' l' c')
      → (v' e' : Bool) × (d : Children) × (k' : Nodes) × (n ≡ node t' l' d v' e' k')
  unfolding AllMatch
  named (node t l c false e k) t' l' c' h = (false, e, c, k, rw (h.0, h.1) refl)
  named (node t l leaf true e k) t' l' c' h = absurd (cc)
  named (node t l (script name) true e k) t' l' c' h = absurd (cc)
  named (node t l (items es) true e k) t' l' c' h = (true, e, items es, k, rw (h.0, h.1) refl)

  -- A node that waits for no script of its own is selected, and stays a match.
  pub finish_at-Matches :
      (opens : Bool) (t : String) (l : Option String) (c : Children) (v b : Bool) (k : Nodes)
      (x : Entry)
      → ((name : String) → ¬ (c ≡ script name))
      → Matches m (node t l c v b k) x
      → (n' : Node) × (finish_at opens (node t l c v b k) ≡ (n', selected [])) × Matches m n' x
  finish_at-Matches opens t l leaf v b k x w h = (node t l leaf v b k, refl, h)
  finish_at-Matches opens t l (script name) v b k x w h = absurd (w name refl)
  finish_at-Matches false t l (items es) v b k x w h = (node t l (items es) v b k, refl, h)
  finish_at-Matches true t l (items es) v true k x w h = (node t l (items es) v true k, refl, h)
  finish_at-Matches true t l (items es) v false k x w h = (
    node t l (items es) true true (get_node es v k),
    refl,
    opened-Matches t l es v false true k (get_node es v k) x h
        (get_node-AllMatch t l es v false k x h),
  )
