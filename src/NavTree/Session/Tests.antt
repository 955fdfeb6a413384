-- ===== src/NavTree/Session/Tests.antt =====
-- docs/navtree.js: the button `nav-sync` and the links of the tree, on pages of the site.
use async_fw.Base.{◌≡◌, refl, true, false, some, List, [], ◌∷◌, ◌++◌}
use async_fw.Base.Text.{codes, last_index_of, Free-of_all}
use async_fw.Cookie.{Browser}
use async_fw.Cookie.Jar.{get_item}
use async_fw.Cookie.Kept.{IsChrome, IsChrome-Kept}
use async_fw.NavTree.Paths.{strip_path, strip_path2, path_name, hash_url}
use async_fw.NavTree.Links.{item_link, anchor_item, address_class}
use async_fw.NavTree.Links.Find.{item_link-address_class}
use async_fw.NavTree.Session.{
  navpath, Page, Session, split_target, load, click_sync, Step, loads, clicks_sync, clicks_link,
  changes, run,
}
use async_fw.NavTree.Session.Store.{IsValid, load-IsValid, click_sync-IsValid, run-load-IsValid}
use async_fw.NavTree.Session.Sync.{click_sync-load_off, click_sync-load_on}

abbrev chrome : Browser
chrome = record { chrome = true; local = []; session = []; jar = [] }

abbrev thread : Page
thread = record {
  toroot = codes "classAsyncFw_1_1Thread.html";
  path = codes "/AsyncFw/docs/classAsyncFw_1_1Thread.html";
  hash = codes "#a1b";
}

abbrev timer : Page
timer = record {
  toroot = codes "classAsyncFw_1_1Timer.html";
  path = codes "/AsyncFw/docs/classAsyncFw_1_1Timer.html";
  hash = [];
}

abbrev moves : List Step
moves = loads timer ∷ changes false true (codes "#a2c") ∷ []

chrome-IsChrome : IsChrome navpath chrome
unfolding get_item
chrome-IsChrome = (refl, refl)

on_thread : IsValid (IsChrome navpath) (load thread chrome)
on_thread = load-IsValid (IsChrome-Kept navpath) thread chrome chrome-IsChrome

thread_is_synced : (load thread chrome).sync ≡ true
unfolding load get_item
thread_is_synced = refl

run-load-IsValid_example : IsValid (IsChrome navpath) (
    run
      (clicks_sync [] ∷ clicks_link [] (codes "files.html") ∷ loads timer ∷ clicks_sync [] ∷ [])
      (load thread chrome))
run-load-IsValid_example =
    run-load-IsValid (IsChrome-Kept navpath) thread
      (clicks_sync [] ∷ clicks_link [] (codes "files.html") ∷ loads timer ∷ clicks_sync [] ∷ [])
      chrome chrome-IsChrome (tt, (refl, (tt, (tt, tt))))

click_sync-load_off_example :
    (load timer (run moves (click_sync [] (load thread chrome))).browser).target
    ≡ split_target (strip_path2 (path_name thread.path)) (hash_url thread.hash)
unfolding load
click_sync-load_off_example =
    click_sync-load_off (IsChrome-Kept navpath) [] (load thread chrome) on_thread moves timer
      thread_is_synced (Free-of_all b'#' thread.path refl) tt

abbrev frozen : Session
frozen = click_sync [] (load thread chrome)

frozen_is_off : frozen.sync ≡ false
unfolding click_sync load get_item
frozen_is_off = refl

click_sync-load_on_example :
    (load timer (run moves (click_sync [] frozen)).browser).target
    ≡ split_target timer.toroot (hash_url timer.hash)
click_sync-load_on_example =
    click_sync-load_on (IsChrome-Kept navpath) [] frozen
      (click_sync-IsValid (IsChrome-Kept navpath) [] (load thread chrome) on_thread) moves timer
      frozen_is_off tt

item_link-address_class_example :
    item_link [] thread.path
      (some (codes "classAsyncFw_1_1Thread.html" ++ b'#' ∷ codes "a1b"))
      false
    ≡ anchor_item
        (address_class thread)
        thread.hash
        (codes "classAsyncFw_1_1Thread.html" ++ b'#' ∷ codes "a1b")
        thread.hash
unfolding strip_path path_name last_index_of
item_link-address_class_example =
    item_link-address_class b'c' (codes "lassAsyncFw_1_1Thread.html") (codes "a1b")
      (Free-of_all b'/' (codes "classAsyncFw_1_1Thread.html") refl)
      (Free-of_all b'#' (codes "classAsyncFw_1_1Thread.html") refl) refl refl [] thread false refl
      refl
