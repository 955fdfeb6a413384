-- ===== src/NavTree/Tree/Loading.antt =====
-- docs/navtree.js, `getScript`: scripts that a call below waits for, seen from above.
use Prim.Native.String.{String}
use async_fw.Base.{
  ℕ, zero, suc, ◌≡◌, refl, sym, ap, ◌∙◌, Bool, true, Option, none, some, List, ◌∷◌, Option-cases,
  inl, inr,
}
use async_fw.NavTree.Entries.{items, Entries}
use async_fw.NavTree.Tree.{
  Node, node, Nodes, no_nodes, add, nth_node, put_node, Waiting, Outcome, selected, unselected,
  failed, waits, lift, resume, find_data, load_all,
}

pub nth-put_node :
    (k : Nodes) (i : ℕ) (n m : Node) → nth_node k i ≡ some n → nth_node (put_node k i m) i ≡ some m
nth-put_node no_nodes i n m e = absurd (cc)
nth-put_node (add a k) zero n m e = refl
nth-put_node (add a k) (suc i) n m e = nth-put_node k i n m e

pub put-put_node : (k : Nodes) (i : ℕ) (n m : Node) → put_node (put_node k i n) i m ≡ put_node k i m
put-put_node no_nodes i n m = refl
put-put_node (add a k) zero n m = refl
put-put_node (add a k) (suc i) n m = ap (add a) (put-put_node k i n m)

module _ (m : List (String × Entries)) (opens : Bool) (f i : ℕ) (is : List ℕ) (n : Node)
    (w : Waiting) (d : ℕ) (name : String) where
  pub load_all-missing :
      find_data m name ≡ none
      → load_all m opens (suc f) i is (n, waits w d name) ≡ (n, waits w d name)
  unfolding load_all
  load_all-missing e = rw (e, load_all) refl

  pub load_all-waits :
      (es : Entries)
      → find_data m name ≡ some es
      → load_all m opens (suc f) i is (n, waits w d name)
        ≡ load_all m opens f i is (resume opens w d i is es n)
  unfolding load_all
  load_all-waits es e = rw (e, load_all) refl

pub resume-lift :
    (opens : Bool) (w : Waiting) (d i j : ℕ) (js : List ℕ) (fs : Entries) (t : String)
    (l : Option String) (es : Entries) (k : Nodes) (n a : Node)
    → nth_node k i ≡ some n
    → resume opens w (suc d) i (j ∷ js) fs (node t l (items es) true true (put_node k i a))
      ≡ lift t l es k i (resume opens w d j js fs a)
unfolding resume
resume-lift opens w d i j js fs t l es k n a h =
    rw (resume, nth-put_node k i n a h, put-put_node k i a (resume opens w d j js fs a).0) refl

-- The scripts that a call below waits for arrive below.
pub load_all-lift :
    (m : List (String × Entries)) (opens : Bool) (f i j : ℕ) (js : List ℕ) (t : String)
    (l : Option String) (es : Entries) (k : Nodes) (n : Node) (s : Node × Outcome)
    → nth_node k i ≡ some n
    → load_all m opens f i (j ∷ js) (lift t l es k i s)
      ≡ lift t l es k i (load_all m opens f j js s)
unfolding load_all
load_all-lift m opens zero i j js t l es k n s h = refl
load_all-lift m opens (suc f) i j js t l es k n (a, selected p) h = refl
load_all-lift m opens (suc f) i j js t l es k n (a, unselected) h = refl
load_all-lift m opens (suc f) i j js t l es k n (a, failed) h = refl
load_all-lift m opens (suc f) i j js t l es k n (a, waits w d name) h =
    elim (Option-cases (find_data m name)) [
      | inl e ↦
          load_all-missing m opens f i (j ∷ js) _ w (suc d) name e
          ∙ sym (ap (lift t l es k i) (load_all-missing m opens f j js a w d name e))
      | inr (fs, e) ↦
          load_all-waits m opens f i (j ∷ js) _ w (suc d) name fs e
          ∙ ap (load_all m opens f i (j ∷ js)) (resume-lift opens w d i j js fs t l es k n a h)
          ∙ load_all-lift m opens f i j js t l es k n (resume opens w d j js fs a) h
          ∙ sym (ap (lift t l es k i) (load_all-waits m opens f j js a w d name fs e))
    ]
