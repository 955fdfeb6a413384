-- ===== src/NavTree/Session/Sync.antt =====
-- docs/navtree.js: which node the tree goes to while the button `nav-sync` is off, and once it is on
-- again.
use async_fw.Base.{◌≡◌, refl, ap, ◌∙◌, Bool, true, false, Option, some, List, [], ◌∷◌, drop, arith}
use async_fw.Base.Text.{Text, Free}
use async_fw.Cookie.{Browser, truthy}
use async_fw.Cookie.Kept.{Kept}
use async_fw.NavTree.Paths.{strip_path2, hash_value, hash_url, path_name, split_hash}
use async_fw.NavTree.Paths.Laws.{keep_idem}
use async_fw.NavTree.Paths.Cut.{split_hash-append, Free-keep, Free-keep_other, Free-strip_path2}
use async_fw.NavTree.Session.{
  navpath, cached_link, link_hash, Page, split_target, nav_to, page_link, Session, load, click_sync,
  hash_change, Step, loads, clicks_sync, clicks_link, changes, step, run,
}
use async_fw.NavTree.Session.Store.{IsValid, truthy-page_link}

-- Pages are loaded and fragments change, and nothing is clicked in the tree.
abbrev pub IsQuiet : List Step → Type 0
IsQuiet [] = Unit
IsQuiet (loads p ∷ es) = IsQuiet es
IsQuiet (changes a f hash ∷ es) = IsQuiet es
IsQuiet (clicks_sync date ∷ es) = ⊥
IsQuiet (clicks_link date link ∷ es) = ⊥

load_browser : (p : Page) (b : Browser) → (load p b).browser ≡ b
unfolding load
load_browser p b = refl

hash_change_browser :
    (a f : Bool) (hash : Text) (s : Session) → (hash_change a f hash s).browser ≡ s.browser
unfolding hash_change
hash_change_browser a f hash s = ground arith

run_browser : (es : List Step) (s : Session) → IsQuiet es → (run es s).browser ≡ s.browser
unfolding run step
run_browser [] s q = refl
run_browser (loads p ∷ es) s q = run_browser es (load p s.browser) q ∙ load_browser p s.browser
run_browser (changes a f hash ∷ es) s q =
    run_browser es (hash_change a f hash s) q ∙ hash_change_browser a f hash s
run_browser (clicks_sync date ∷ es) s q = absurd q
run_browser (clicks_link date link ∷ es) s q = absurd q

load_target :
    (p : Page) (b : Browser) → (load p b).target ≡ nav_to (cached_link b) p.toroot (hash_url p.hash)
unfolding load
load_target p b = refl

-- A link with a fragment leads to its page and its fragment.
nav_to_split :
    (link root hash first : Text) (second : Option Text)
    → truthy (some link) ≡ true
    → split_hash link ≡ (first, second)
    → nav_to link root hash ≡ split_target first (link_hash second)
unfolding nav_to
nav_to_split [] root hash first second t e = absurd (ground arith)
nav_to_split (c ∷ link) root hash first second t e = rw e refl

nav_to-page_link :
    (p : Page) (root hash : Text)
    → Free b'#' p.path
    → nav_to (page_link p) root hash
      ≡ split_target (strip_path2 (path_name p.path)) (hash_url p.hash)
unfolding hash_url hash_value path_name
nav_to-page_link p root hash f =
    nav_to_split (page_link p) root hash _ _ (truthy-page_link p) (
      split_hash-append (strip_path2 (path_name p.path)) (hash_value p.hash)
        (Free-strip_path2 b'#' _ (Free-keep b'#' _ p.path f))
        (Free-keep_other b'#' _ (drop 1 p.hash) refl))
    ∙ ap (λ h. split_target (strip_path2 (path_name p.path)) (b'#' ∷ h))
        (keep_idem _ (drop 1 p.hash))

run_target :
    (es : List Step) (s : Session) (p : Page)
    → IsQuiet es
    → (load p (run es s).browser).target ≡ nav_to (cached_link s.browser) p.toroot (hash_url p.hash)
run_target es s p q =
    load_target p (run es s).browser
    ∙ ap (λ b. nav_to (cached_link b) p.toroot (hash_url p.hash)) (run_browser es s q)

module _ {Good : Browser → Type 0} (kept : Kept navpath Good) (date : Text) (s : Session)
    (v : IsValid Good s) where
  clicked_off : s.sync ≡ true → cached_link (click_sync date s).browser ≡ page_link s.page
  unfolding click_sync
  clicked_off on =
      rw on (kept.read_write date (page_link s.page) s.browser v.good (truthy-page_link s.page))

  clicked_on : s.sync ≡ false → cached_link (click_sync date s).browser ≡ []
  unfolding click_sync
  clicked_on off = rw off (kept.read_erase date s.browser v.good)

  -- In a browser that gives back the link that it keeps (`Kept`), from a state in which the button
  -- and the kept link agree (`IsValid`): once the button is clicked off, whatever pages are loaded
  -- and fragments change, each page that is then loaded goes to the node of the page on which the
  -- button was clicked, with that page's fragment, provided that its path has no "#".
  pub click_sync-load_off :
      (es : List Step) (p : Page)
      → s.sync ≡ true
      → Free b'#' s.page.path
      → IsQuiet es
      → (load p (run es (click_sync date s)).browser).target
        ≡ split_target (strip_path2 (path_name s.page.path)) (hash_url s.page.hash)
  click_sync-load_off es p on f q =
      run_target es (click_sync date s) p q
      ∙ ap (λ l. nav_to l p.toroot (hash_url p.hash)) (clicked_off on)
      ∙ nav_to-page_link s.page p.toroot (hash_url p.hash) f

  -- In such a browser and from such a state: once the button is clicked on again, whatever pages are
  -- loaded and fragments change, each page that is then loaded goes to its own node.
  pub click_sync-load_on :
      (es : List Step) (p : Page)
      → s.sync ≡ false
      → IsQuiet es
      → (load p (run es (click_sync date s)).browser).target
        ≡ split_target p.toroot (hash_url p.hash)
  click_sync-load_on es p off q =
      run_target es (click_sync date s) p q
      ∙ ap (λ l. nav_to l p.toroot (hash_url p.hash)) (clicked_on off)
      ∙ unfold nav_to in refl
