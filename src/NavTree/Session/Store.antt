-- ===== src/NavTree/Session/Store.antt =====
-- docs/navtree.js: the button `nav-sync` and the link that the browser keeps.
use async_fw.Base.{
  ◌≡◌, refl, sym, ap, ◌∙◌, Bool, true, not, some, List, [], ◌∷◌, ◌++◌, leb, length, arith,
  Bool-cases, inl, inr,
}
use async_fw.Base.Text.{Text}
use async_fw.Cookie.{Browser, truthy}
use async_fw.Cookie.Kept.{Kept}
use async_fw.NavTree.Paths.{hash_url, path_name, strip_path2}
use async_fw.NavTree.Session.{
  navpath, cached_link, Page, page_link, Session, load, click_sync, click_link, hash_change, Step,
  loads, clicks_sync, clicks_link, changes, step, run,
}

-- The button and its icon are on just when no link is stored.
pub record IsValid (Good : Browser → Type 0) (s : Session) : Type 0 where
  pub good : Good s.browser
  pub icon : s.active ≡ s.sync
  pub stored : truthy (some (cached_link s.browser)) ≡ not s.sync

abbrev pub Links : Step → Type 0
Links (clicks_link date link) = truthy (some link) ≡ true
Links _ = Unit

abbrev pub AllLinks : List Step → Type 0
AllLinks [] = Unit
AllLinks (e ∷ es) = Links e × AllLinks es

truthy-append : (s t : Text) → truthy (some t) ≡ true → truthy (some (s ++ t)) ≡ true
truthy-append [] t h = h
truthy-append (c ∷ s) t h = refl

pub truthy-page_link : (p : Page) → truthy (some (page_link p)) ≡ true
truthy-page_link p = truthy-append (strip_path2 (path_name p.path)) (hash_url p.hash) hash
  where
    hash : truthy (some (hash_url p.hash)) ≡ true
    hash = unfold hash_url in refl

not-not : (b : Bool) → not (not b) ≡ b
not-not b = ground arith

module _ {Good : Browser → Type 0} (kept : Kept navpath Good) where
  pub load-IsValid : (p : Page) (b : Browser) → Good b → IsValid Good (load p b)
  unfolding load
  load-IsValid p b g = record { good = g; icon = refl; stored = sym (not-not _) }

  pub click_sync-IsValid :
      (date : Text) (s : Session) → IsValid Good s → IsValid Good (click_sync date s)
  unfolding click_sync
  click_sync-IsValid date s v = elim (Bool-cases s.sync) [
    | inl on ↦ rw on record {
      good = kept.good_write date (page_link s.page) s.browser v.good;
      icon = refl;
      stored =
          ap (λ u. truthy (some u))
            (kept.read_write date (page_link s.page) s.browser v.good (truthy-page_link s.page))
          ∙ truthy-page_link s.page;
    }
    | inr off ↦ rw off record {
      good = kept.good_erase date s.browser v.good;
      icon = refl;
      stored = ap (λ u. truthy (some u)) (kept.read_erase date s.browser v.good);
    }
  ]

  click_link-IsValid :
      (date link : Text) (s : Session)
      → truthy (some link) ≡ true
      → IsValid Good s
      → IsValid Good (click_link date link s)
  unfolding click_link
  click_link-IsValid date link s t v = elim (Bool-cases s.sync) [
    | inl on ↦ rw on record { good = v.good; icon = v.icon ∙ on; stored = v.stored ∙ ap not on }
    | inr off ↦ rw off record {
      good = kept.good_write date link s.browser v.good;
      icon = v.icon ∙ off;
      stored = ap (λ u. truthy (some u)) (kept.read_write date link s.browser v.good t) ∙ t;
    }
  ]

  hash_change-IsValid :
      (a f : Bool) (hash : Text) (s : Session)
      → IsValid Good s
      → IsValid Good (hash_change a f hash s)
  unfolding hash_change
  hash_change-IsValid a f hash s v = elim (Bool-cases a) [
    | inl moving ↦ rw moving record { good = v.good; icon = v.icon; stored = v.stored }
    | inr still ↦ elim (Bool-cases (leb 2 (length hash))) [
      | inl long ↦ rw (still, long) record { good = v.good; icon = v.icon; stored = v.stored }
      | inr short ↦ rw (still, short) record { good = v.good; icon = v.icon; stored = v.stored }
    ]
  ]

  step-IsValid : (e : Step) (s : Session) → Links e → IsValid Good s → IsValid Good (step e s)
  unfolding step
  step-IsValid (loads p) s l v = load-IsValid p s.browser v.good
  step-IsValid (clicks_sync date) s l v = click_sync-IsValid date s v
  step-IsValid (clicks_link date link) s l v = click_link-IsValid date link s l v
  step-IsValid (changes a f hash) s l v = hash_change-IsValid a f hash s v

  run-IsValid_session :
      (es : List Step) (s : Session) → AllLinks es → IsValid Good s → IsValid Good (run es s)
  unfolding run
  run-IsValid_session [] s l v = v
  run-IsValid_session (e ∷ es) s l v =
      run-IsValid_session es (step e s) l.1 (step-IsValid e s l.0 v)

  -- Over any run of loaded pages, clicks on the button and on links that are not empty, and changes of
  -- the fragment, in a browser that keeps the setting, the button and its icon agree, and a link is
  -- stored just when they are off.
  pub run-load-IsValid :
      (p : Page) (es : List Step) (b : Browser)
      → Good b
      → AllLinks es
      → IsValid Good (run es (load p b))
  run-load-IsValid p es b g l = run-IsValid_session es (load p b) l (load-IsValid p b g)
