-- ===== src/NavTree/Walk/SiteIndex.antt =====
-- The index of the site as docs/navtreedata.js and docs/navtreeindex*.js give it.
use Prim.Native.String.{String}
use async_fw.Base.{
  ℕ, zero, suc, ◌≡◌, refl, true, List, [], ◌∷◌, some, get_elem?, map, Bool, all, arith,
}
use async_fw.Base.Text.{codes, text_leb, starts_with}
use async_fw.NavTree.Site.{shard_0, shard_1, shard_2, site_shards, site_scripts, navtree}
use async_fw.NavTree.Index.{locate, index_ok}
use async_fw.NavTree.Index.Search.{locate-index_ok}
use async_fw.NavTree.Walk.{site_bounds, site_index, site_root, texts, place_ok}

site_index_ok : index_ok site_bounds site_index ≡ true
unfolding site_bounds site_index index_ok text_leb
site_index_ok = refl

module _ {ℓ} {A : Type ℓ} (p : A → Bool) where
  all-at : (xs : List A) (i : ℕ) {x : A} → all p xs ≡ true → get_elem? xs i ≡ some x → p x ≡ true
  all-at [] i h e = absurd (cc)
  all-at (y ∷ xs) zero h e = ground arith
  all-at (y ∷ xs) (suc i) h e = all-at xs i (ground arith) e

places_ok : List (String × List ℕ) → Bool
places_ok s = all (place_ok site_scripts site_root) s

shard_0-places : places_ok shard_0 ≡ true
unfolding shard_0 places_ok place_ok site_root site_scripts navtree starts_with
shard_0-places = refl

shard_1-places : places_ok shard_1 ≡ true
unfolding shard_1 places_ok place_ok site_root site_scripts navtree starts_with
shard_1-places = refl

shard_2-places : places_ok shard_2 ≡ true
unfolding shard_2 places_ok place_ok site_root site_scripts navtree starts_with
shard_2-places = refl

site_places : all places_ok site_shards ≡ true
unfolding site_shards
site_places = simp (shard_0-places, shard_1-places, shard_2-places)

module _ {ℓ κ} {A : Type ℓ} {B : Type κ} (f : A → B) where
  get_elem?-map :
      (xs : List A) (i : ℕ) {x : A} → get_elem? xs i ≡ some x → get_elem? (map f xs) i ≡ some (f x)
  get_elem?-map [] i e = absurd (cc)
  get_elem?-map (y ∷ xs) zero e = cc
  get_elem?-map (y ∷ xs) (suc i) e = get_elem?-map xs i e

get_elem?-texts :
    (s : List (String × List ℕ)) (n : ℕ) (key : String) (path : List ℕ)
    → get_elem? s n ≡ some (key, path)
    → get_elem? (texts s) n ≡ some (codes key, path)
get_elem?-texts [] n key path e = absurd (cc)
get_elem?-texts ((k, p) ∷ s) zero key path e = cc
get_elem?-texts ((k, p) ∷ s) (suc n) key path e = get_elem?-texts s n key path e

-- Every page that the index files list is found by `gotoUrl` at the place listed for it, and that
-- place leads, through the scripts that the tree loads on demand, to an entry that links to the
-- page or, for the source text of a header, to the header's page; the empty place is listed for
-- index.html and pages.html only.
pub site_page_found :
    (i n : ℕ) (s : List (String × List ℕ)) (key : String) (path : List ℕ)
    → get_elem? site_shards i ≡ some s
    → get_elem? s n ≡ some (key, path)
    → (locate site_bounds site_index (codes key) ≡ some path)
      × (place_ok site_scripts site_root (key, path) ≡ true)
site_page_found i n s key path e f = (found, led)
  where
    found : locate site_bounds site_index (codes key) ≡ some path
    found =
        locate-index_ok site_bounds site_index i n (texts s) (codes key) path site_index_ok
          (unfold site_index in get_elem?-map texts site_shards i e)
          (get_elem?-texts s n key path f)

    led : place_ok site_scripts site_root (key, path) ≡ true
    led =
        all-at (place_ok site_scripts site_root) s n
          (unfold places_ok in all-at places_ok site_shards i site_places e) f
