-- ===== src/NavTree/Paths/Cut.antt =====
-- docs/navtree.js: where a link is cut at its "#", and what has none.
use async_fw.Base.{
  ℕ, zero, suc, ◌≡◌, refl, Bool, true, false, Option, none, some, [], ◌∷◌, ◌++◌, if◌then◌else◌,
  ◌==◌, ◌&&◌, ◌-◌, leb, drop, Bool-cases, ==_iff, inl, inr,
}
use async_fw.Base.Text.{Text, Free, last_index_of, substring}
use async_fw.NavTree.Paths.{keep, is_subdir, strip_at, strip_path2, split_hash}

pub split_hash-Free : (t : Text) → Free b'#' t → split_hash t ≡ (t, none)
unfolding split_hash
split_hash-Free [] f = refl
split_hash-Free (c ∷ t) f = rw (f.0, split_hash-Free t f.1) refl

pub split_hash-append :
    (s t : Text) → Free b'#' s → Free b'#' t → split_hash (s ++ b'#' ∷ t) ≡ (s, some t)
unfolding split_hash
split_hash-append [] t f g = rw (split_hash-Free t g) refl
split_hash-append (c ∷ s) t f g = rw (f.0, split_hash-append s t f.1 g) refl

Free-if : (c : ℕ) (b : Bool) (s t : Text) → Free c s → Free c t → Free c (if b then s else t)
Free-if c true s t f g = f
Free-if c false s t f g = g

pub Free-keep : (c : ℕ) (p : ℕ → Bool) (t : Text) → Free c t → Free c (keep p t)
unfolding keep
Free-keep c p [] f = tt
Free-keep c p (x ∷ t) f =
    Free-if c (p x) (x ∷ keep p t) (keep p t) (f.0, Free-keep c p t f.1) (Free-keep c p t f.1)

pub ==_false : (p : ℕ → Bool) (x c : ℕ) → p c ≡ false → p x ≡ true → (x == c) ≡ false
==_false p x c e h = elim (Bool-cases (x == c)) [
  | inl same ↦ let eq = ((==_iff x c).0) same in cc
  | inr other ↦ other
]

pub Free-keep_other : (c : ℕ) (p : ℕ → Bool) (t : Text) → p c ≡ false → Free c (keep p t)
unfolding keep
Free-keep_other c p [] e = tt
Free-keep_other c p (x ∷ t) e = elim (Bool-cases (p x)) [
  | inl h ↦ rw h (==_false p x c e h, Free-keep_other c p t e)
  | inr h ↦ rw h (Free-keep_other c p t e)
]

Free-drop : (c n : ℕ) (t : Text) → Free c t → Free c (drop n t)
Free-drop c zero t f = f
Free-drop c (suc n) [] f = tt
Free-drop c (suc n) (x ∷ t) f = Free-drop c n t f.1

Free-strip_at : (c : ℕ) (o : Option ℕ) (t : Text) → Free c t → Free c (strip_at o t)
Free-strip_at c none t f = f
Free-strip_at c (some i) t f =
    Free-if c (leb 7 i && is_subdir (substring (i - 7) (suc i) t)) (drop (i - 6) t) (drop (suc i) t)
      (Free-drop c (i - 6) t f) (Free-drop c (suc i) t f)

pub Free-strip_path2 : (c : ℕ) (t : Text) → Free c t → Free c (strip_path2 t)
unfolding strip_path2
Free-strip_path2 c t f = Free-strip_at c (last_index_of b'/' t) t f
