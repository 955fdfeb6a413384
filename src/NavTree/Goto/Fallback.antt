-- ===== src/NavTree/Goto/Fallback.antt =====
-- docs/navtree.js, `gotoUrl`: a page of the index with an anchor that may not be in it.
use async_fw.Base.{
  ℕ, suc, ◌≡◌, refl, ap, ◌∙◌, true, false, Option, none, some, List, [], ◌∷◌, ◌++◌, ◌==◌, get_elem?,
  arith, append-nil, Option-cases, inl, inr,
}
use async_fw.Base.Text.{Text, text_eq, text_leb, text_leb_trans}
use async_fw.NavTree.Index.{Shard, advance, shard_of, place_of, locate, index_ok}
use async_fw.NavTree.Index.Search.{advance-at, locate-index_ok}
use async_fw.NavTree.Goto.{root_for, goto_place, goto_url, after_place}

-- The place found, or else that of the page.
abbrev pub place_or : List ℕ → Option (List ℕ) → List ℕ
place_or p none = p
place_or p (some q) = q

text_leb-append : (s t : Text) → text_leb s (s ++ t) ≡ true
unfolding text_leb
text_leb-append [] t = refl
text_leb-append (c ∷ s) t = ground (arith, text_leb-append s t)

-- A longer url goes past the first page as well.
advance-append :
    (bs : List Text) (s t : Text) (i : ℕ)
    → advance bs s ≡ suc i
    → (advance bs (s ++ t) == 0) ≡ false
unfolding advance
advance-append [] s t i e = absurd (omega arith)
advance-append (b ∷ bs) s t i e = ground (arith, text_leb_trans b s (s ++ t), text_leb-append s t)

module _ (bs : List Text) (ss : List Shard) (home root hash : Text) where
  goto_place-locate :
      (i : ℕ)
      → advance bs root ≡ suc i
      → (goto_place bs ss home root hash ≡ locate bs ss (root ++ hash))
        × (root_for bs home root hash ≡ root)
  unfolding goto_place locate
  goto_place-locate i e = let past = advance-append bs root hash i e in rw past (refl, refl)

  goto_place-locate_bare :
      (i : ℕ) → advance bs root ≡ suc i → goto_place bs ss home root [] ≡ locate bs ss root
  unfolding goto_place locate
  goto_place-locate_bare i e =
      let past = advance-append bs root [] i e in
      rw past (ap (λ u. place_of (get_elem? ss (shard_of bs u)) u) (append-nil root))

  -- In a well-formed index, a page of it with an anchor that is not empty is found at the place of
  -- the two together, or at the place of the page if the index has no place for the two.
  pub goto_url-index_ok :
      (i n : ℕ) (s : Shard) (p : List ℕ)
      → index_ok bs ss ≡ true
      → get_elem? ss i ≡ some s
      → get_elem? s n ≡ some (root, p)
      → text_eq hash [] ≡ false
      → goto_url bs ss home root hash ≡ some (place_or p (locate bs ss (root ++ hash)))
  unfolding goto_url index_ok
  goto_url-index_ok i n s p o e g ne =
      let (steps, _) = advance-at bs ss i n s root p (ground arith) (ground arith) e g in
      let (same, kept) = goto_place-locate i steps in
      let bare = goto_place-locate_bare i steps in
      ap (after_place bs ss home root hash) same
      ∙ elim (Option-cases (locate bs ss (root ++ hash))) [
        | inl gone ↦ rw (gone, ne, kept) (bare ∙ locate-index_ok bs ss i n s root p o e g)
        | inr (q, found) ↦ rw found refl
      ]
