-- ===== src/NavTree/Tree/Shown.antt =====
-- docs/navtree.js, `showNode`: showing a place that leads somewhere, once the scripts of the site
-- have arrived, in a tree that may have shown other places before.
use Prim.Native.String.{String}
use mathlib.Core.Option.{some-injective}
use async_fw.Base.{
  ℕ, zero, suc, ◌+◌, ◌≤◌, ◌≡◌, refl, sym, ap, ◌∙◌, subst, Bool, true, false, Option, some, List, [],
  ◌∷◌, length, arith,
}
use async_fw.NavTree.Entries.{Entry, Children, leaf, script, items, Entries}
use async_fw.NavTree.Walk.{children}
use async_fw.NavTree.Tree.{
  Node, node, Nodes, get_node, nth_node, put_node, set_data, own, last, selected, deeper, lift,
  show_node, resume, find_data, load_all,
}
use async_fw.NavTree.Tree.Loading.{nth-put_node, load_all-waits, load_all-lift}
use async_fw.NavTree.Tree.Matches.{
  Matches, AllMatch-nth, AllMatch-put, get_node-AllMatch, opened-Matches, data_of, LeadsIn, Leads,
  IsShownAt,
}
use async_fw.NavTree.Tree.Steps.{
  load_all-selected, show_node_selected, arrived-Matches, listed-of_Matches, put_data-put_node,
  data_of-Matches, leaf-Matches, IsListed-script, IsDone,
}

module _ (m : List (String × Entries)) (opens : Bool) where
  show_node_last :
      (e : Entry) (i : ℕ) (t : String) (l : Option String) (es : Entries) (v b : Bool) (k : Nodes)
      (x : Entry) (f : ℕ)
      → Matches m (node t l (items es) v b k) e
      → LeadsIn m es i [] x
      → 1 ≤ f
      → IsDone m e i [] x
          (load_all m opens f i [] (show_node opens i [] (node t l (items es) v b k)))
  unfolding show_node resume
  show_node_last e i t l es v b k x zero h (at, listed) le = absurd (omega arith)
  show_node_last e i t l es v b k x (suc f) h (at, listed) le =
      let all = get_node-AllMatch m t l es v b k e h in
      let (n, here, p) = AllMatch-nth m (get_node es v k) es i x all at in by_node n here p
    where
      ready :
          (t' : String) (l' : Option String) (c : Children) (v' b' : Bool) (k' : Nodes)
          → nth_node (get_node es v k) i ≡ some (node t' l' c v' b' k')
          → Matches m (node t' l' c v' b' k') x
          → ((name : String) → ¬ (c ≡ script name))
          → IsDone m e i [] x
              (load_all m opens (suc f) i [] (show_node opens i [] (node t l (items es) v b k)))
      ready t' l' c v' b' k' here p w =
          let (r, shown, done) =
            show_node_selected m opens e i t l es v b k t' l' c v' b' k' x h at here p w in
          subst (IsDone m e i [] x)
            (sym (
              ap (load_all m opens (suc f) i []) shown
              ∙ load_all-selected m opens (suc f) i [] r (i ∷ [])))
            done

      by_node :
          (n : Node)
          → nth_node (get_node es v k) i ≡ some n
          → Matches m n x
          → IsDone m e i [] x
              (load_all m opens (suc f) i [] (show_node opens i [] (node t l (items es) v b k)))
      by_node (node t' l' leaf v' b' k') here p = ready t' l' leaf v' b' k' here p (λ name o. cc o)
      by_node (node t' l' (items gs) v' b' k') here p =
          ready t' l' (items gs) v' b' k' here p (λ name o. cc o)
      by_node (node t' l' (script name) v' b' k') here p =
          let n : Node = node t' l' (script name) v' b' k' in
          let k1 = get_node es v k in
          let (fs, found) =
            IsListed-script m (children x) name
              (listed-of_Matches m opens e i t' l' name v' b' k' x p) listed in
          let q = arrived-Matches m opens e i t' l' name v' b' k' x fs p found in
          let all =
            AllMatch-put m k1 es i x (set_data (items fs) n) (get_node-AllMatch m t l es v b k e h)
              at q in
          let (r, shown, done) =
            show_node_selected m opens e i t l es true false (put_node k1 i (set_data (items fs) n))
              t' l' (items fs) v' b' k' x (opened-Matches m t l es v b false k _ e h all) at
              (nth-put_node k1 i n _ here) q (λ name o. cc o) in
          subst (IsDone m e i [] x)
            (sym (
              ap (load_all m opens (suc f) i []) (rw (show_node, here) refl)
              ∙ load_all-waits m opens f i [] (node t l (items es) true true (put_node k1 i n)) last
                  0 name fs found
              ∙ ap
                  (λ z.
                    load_all m opens f i []
                      (show_node opens i [] (node t l (items es) true false z)))
                  (put_data-put_node (items fs) k1 i n here)
              ∙ ap (load_all m opens f i []) shown
              ∙ load_all-selected m opens f i [] r (i ∷ [])))
            done

  -- A node of any kind, once its own script has arrived.
  show_node_any :
      (e : Entry) (i : ℕ) (is : List ℕ) (n : Node) (es : Entries) (x : Entry) (f : ℕ)
      → ((t : String) (l : Option String) (v b : Bool) (k : Nodes) (g : ℕ)
          → Matches m (node t l (items es) v b k) e
          → length is + 1 ≤ g
          → IsDone m e i is x
              (load_all m opens g i is (show_node opens i is (node t l (items es) v b k))))
      → Matches m n e
      → data_of m (children e) ≡ some es
      → length is + 2 ≤ f
      → IsDone m e i is x (load_all m opens f i is (show_node opens i is n))
  unfolding show_node resume
  show_node_any e i is (node t l leaf v b k) es x f loaded h d le =
      absurd (cc (leaf-Matches m t l v b k e h, d))
  show_node_any e i is (node t l (items gs) v b k) es x f loaded h d le =
      let same : gs ≡ es = some-injective gs es (sym (data_of-Matches m t l gs v b k e h) ∙ d) in
      subst
        (λ z.
          IsDone m e i is x
            (load_all m opens f i is (show_node opens i is (node t l (items z) v b k))))
        (sym same)
        (loaded t l v b k f (subst (λ z. Matches m (node t l (items z) v b k) e) same h)
          (omega arith))
  show_node_any e i is (node t l (script name) v b k) es x zero loaded h d le = absurd (omega arith)
  show_node_any e i is (node t l (script name) v b k) es x (suc f) loaded h d le =
      let found : find_data m name ≡ some es =
        sym (ap (data_of m) (listed-of_Matches m opens e i t l name v b k e h)) ∙ d in
      subst (IsDone m e i is x)
        (sym (load_all-waits m opens f i is (node t l (script name) v b k) own 0 name es found))
        (loaded t l v b k f (arrived-Matches m opens e i t l name v b k e es h found) (omega arith))

  show_node_loaded :
      (is : List ℕ) (e : Entry) (i : ℕ) (t : String) (l : Option String) (es : Entries) (v b : Bool)
      (k : Nodes) (x : Entry) (f : ℕ)
      → Matches m (node t l (items es) v b k) e
      → LeadsIn m es i is x
      → length is + 1 ≤ f
      → IsDone m e i is x
          (load_all m opens f i is (show_node opens i is (node t l (items es) v b k)))
  unfolding show_node
  show_node_loaded [] e i t l es v b k x f h leads le =
      show_node_last e i t l es v b k x f h leads (omega arith)
  show_node_loaded (j ∷ js) e i t l es v b k x f h (c, fs, at, d, leads) le =
      let k1 = get_node es v k in
      let all = get_node-AllMatch m t l es v b k e h in
      let (n, here, p) = AllMatch-nth m k1 es i c all at in
      let below = load_all m opens f j js (show_node opens j js n) in
      let done =
        show_node_any c j js n fs x f
          (λ t' l' v' b' k' g q le'. show_node_loaded js c j t' l' fs v' b' k' x g q leads le') p d
          (omega arith) in
      let whole : IsDone m e i (j ∷ js) x (lift t l es k1 i below) = (
        ap (deeper i) done.0,
        (refl, below.0, nth-put_node k1 i n below.0 here, done.1),
        opened-Matches m t l es v b true k _ e h (AllMatch-put m k1 es i c below.0 all at done.2),
      ) in
      subst (IsDone m e i (j ∷ js) x)
        (sym (
          ap (load_all m opens f i (j ∷ js)) (rw (show_node, here) refl)
          ∙ load_all-lift m opens f i j js t l es k1 n (show_node opens j js n) here))
        whole

  -- From any state of the tree that `showNode` may have left, a place that leads to an entry is
  -- shown once the scripts that it waits for have arrived, one more at most than the place has
  -- steps: the node at the place is handed over for selection, every node on the way is open, the
  -- last one has the label and the link of the entry, and the tree is still that of the site.
  pub load_all-show_node :
      (e : Entry) (i : ℕ) (is : List ℕ) (n : Node) (x : Entry) (f : ℕ)
      → Matches m n e
      → Leads m e i is x
      → length is + 2 ≤ f
      → let s = load_all m opens f i is (show_node opens i is n) in
        (s.1 ≡ selected (i ∷ is)) × IsShownAt s.0 i is x × Matches m s.0 e
  load_all-show_node e i is n x f h (es, d, leads) le =
      show_node_any e i is n es x f
        (λ t l v b k g q le'. show_node_loaded is e i t l es v b k x g q leads le') h d le
