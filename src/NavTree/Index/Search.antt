-- ===== src/NavTree/Index/Search.antt =====
-- docs/navtree.js, `gotoUrl`: the loop over the first pages finds the file of every page of a
-- well-formed index, and the file its place.
use mathlib.Core.Option.{some-injective}
use async_fw.Base.{
  ℕ, zero, suc, ◌≡◌, refl, true, false, Option, some, List, [], ◌∷◌, ap, sym, subst, ◌-◌, get_elem?,
  arith, Bool-cases, inl, inr,
}
use async_fw.Base.Text.{
  Text, text_eq, text_eq_refl, text_eq→eq, text_leb, text_leb_trans, text_leb_total,
}
use async_fw.NavTree.Index.{
  Shard, advance, shard_of, place_in, locate, text_ltb, sorted, ascends, below, in_range, next,
  files_ok, index_ok,
}

ltb_trans : (a b c : Text) → text_ltb a b ≡ true → text_ltb b c ≡ true → text_ltb a c ≡ true
ltb_trans a b c p q = ground (arith, text_leb_trans c a b, text_leb_total a b)

ltb-ne : (a b : Text) → text_ltb a b ≡ true → text_eq a b ≡ false
ltb-ne a b p = elim (Bool-cases (text_eq a b)) [
  | inl e ↦ absurd (clash (text_eq→eq a b e))
  | inr n ↦ n
]
  where
    clash : a ≡ b → ⊥
    clash e = ground (arith, text_leb_total a b, ap (λ t. text_leb t a) e, ap (λ t. text_leb b t) e)

-- A key that stands below the first key of an ascending file stands below all of them.
ascends-above :
    (a k : Text) (p q : List ℕ) (s : Shard) (n : ℕ)
    → ascends ((a, q) ∷ s) ≡ true
    → get_elem? s n ≡ some (k, p)
    → text_ltb a k ≡ true
unfolding ascends
ascends-above a k p q [] n o e = absurd (cc)
ascends-above a k p q ((j, r) ∷ s) zero o e = ground (arith)
ascends-above a k p q ((j, r) ∷ s) (suc n) o e =
    ltb_trans a j k (ground arith) (ascends-above j k p r s n (ground arith) e)

ascends-tail : (j : Text) (q : List ℕ) (s : Shard) → ascends ((j, q) ∷ s) ≡ true → ascends s ≡ true
unfolding ascends
ascends-tail j q [] o = refl
ascends-tail j q (_ ∷ _) o = ground arith

place_in-at :
    (k : Text) (p : List ℕ) (s : Shard) (n : ℕ)
    → ascends s ≡ true
    → get_elem? s n ≡ some (k, p)
    → place_in s k ≡ some p
unfolding place_in
place_in-at k p [] n o e = absurd (cc)
place_in-at k p ((j, q) ∷ s) zero o e = ground (arith, text_eq_refl k)
place_in-at k p ((j, q) ∷ s) (suc n) o e =
    let ne = ltb-ne j k (ascends-above j k p q s n o e) in
    rw ne (place_in-at k p s n (ascends-tail j q s o) e)

in_range-at :
    (lo k : Text) (hi : Option Text) (p : List ℕ) (s : Shard) (n : ℕ)
    → in_range lo hi s ≡ true
    → get_elem? s n ≡ some (k, p)
    → (text_leb lo k ≡ true) × (below k hi ≡ true)
unfolding in_range
in_range-at lo k hi p [] n r e = absurd (cc)
in_range-at lo k hi p ((j, q) ∷ s) zero r e = ground arith
in_range-at lo k hi p ((j, q) ∷ s) (suc n) r e = in_range-at lo k hi p s n (ground arith) e

advance-below : (k : Text) (bs : List Text) → below k (next bs) ≡ true → advance bs k ≡ 0
unfolding advance
advance-below k [] h = refl
advance-below k (b ∷ bs) h = ground arith

head-leb :
    (b k : Text) (bs : List Text) (i : ℕ)
    → sorted (b ∷ bs) ≡ true
    → advance bs k ≡ suc i
    → text_leb b k ≡ true
unfolding sorted advance
head-leb b k [] i o e = absurd (omega arith)
head-leb b k (c ∷ bs) i o e = ground (arith, text_leb_trans b c k)

-- The loop goes past every first page up to the url, and stops at the next one.
pub advance-at :
    (bs : List Text) (ss : List Shard) (i n : ℕ) (s : Shard) (k : Text) (p : List ℕ)
    → sorted bs ≡ true
    → files_ok bs ss ≡ true
    → get_elem? ss i ≡ some s
    → get_elem? s n ≡ some (k, p)
    → (advance bs k ≡ suc i) × (ascends s ≡ true)
unfolding advance sorted files_ok
advance-at [] [] i n s k p o f e g = absurd (cc)
advance-at [] (_ ∷ _) i n s k p o f e g = cc
advance-at (_ ∷ _) [] i n s k p o f e g = cc
advance-at (b ∷ bs) (t ∷ ss) zero n s k p o f e g =
    let same = some-injective t s e in
    let g' = subst (λ u. get_elem? u n ≡ some (k, p)) (sym same) g in
    let (from, to) = in_range-at b k (next bs) p t n (ground arith) g' in
    (rw (from, advance-below k bs to), subst (λ u. ascends u ≡ true) same (ground arith))
advance-at (b ∷ bs) (t ∷ ss) (suc i) n s k p o f e g =
    let (more, up) = advance-at bs ss i n s k p (ground arith) (ground arith) e g in
    (rw (head-leb b k bs i o more, more), up)

-- In a well-formed index every page is found at the place that its file gives.
pub locate-index_ok :
    (bs : List Text) (ss : List Shard) (i n : ℕ) (s : Shard) (k : Text) (p : List ℕ)
    → index_ok bs ss ≡ true
    → get_elem? ss i ≡ some s
    → get_elem? s n ≡ some (k, p)
    → locate bs ss k ≡ some p
unfolding locate shard_of index_ok
locate-index_ok bs ss i n s k p o e g =
    let (steps, up) = advance-at bs ss i n s k p (ground arith) (ground arith) e g in
    let back : suc i - 1 ≡ i = omega arith in rw (steps, back, e) (place_in-at k p s n up g)
