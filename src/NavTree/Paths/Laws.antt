-- ===== src/NavTree/Paths/Laws.antt =====
-- docs/navtree.js: what the functions on addresses give.
use async_fw.Base.{
  ℕ, suc, ◌≡◌, refl, Bool, false, none, some, [], ◌∷◌, ◌++◌, ◌==◌, length, drop, arith,
}
use async_fw.Base.Text.{Text, last_index_of, Free}
use async_fw.NavTree.Paths.{keep, replace_all, strip_path}

pub last_index_of-Free : (c : ℕ) (t : Text) → Free c t → last_index_of c t ≡ none
unfolding last_index_of
last_index_of-Free c [] f = refl
last_index_of-Free c (x ∷ t) f = ground (arith, last_index_of-Free c t f.1)

pub last_index_of-append :
    (c : ℕ) (s t : Text) → Free c t → last_index_of c (s ++ c ∷ t) ≡ some (length s)
unfolding last_index_of
last_index_of-append c [] t f = ground (arith, last_index_of-Free c t f)
last_index_of-append c (x ∷ s) t f = ground (arith, last_index_of-append c s t f)

-- The page of an address is what follows its last "/".
pub strip_path-append : (s t : Text) → Free b'/' t → strip_path (s ++ b'/' ∷ t) ≡ t
unfolding strip_path
strip_path-append s t f = rw (last_index_of-append b'/' s t f) (tail s)
  where
    tail : (s : Text) → drop (suc (length s)) (s ++ b'/' ∷ t) ≡ t
    tail [] = refl
    tail (x ∷ s) = tail s

pub keep_idem : (p : ℕ → Bool) (t : Text) → keep p (keep p t) ≡ keep p t
unfolding keep
keep_idem p [] = refl
keep_idem p (c ∷ t) = ground (arith, keep_idem p t)

Free-replace_all : (a b : ℕ) (t : Text) → (a == b) ≡ false → Free a (replace_all a b t)
unfolding replace_all
Free-replace_all a b [] h = tt
Free-replace_all a b (c ∷ t) h = (ground arith, Free-replace_all a b t h)
