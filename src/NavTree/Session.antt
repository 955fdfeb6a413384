-- ===== src/NavTree/Session.antt =====
-- docs/navtree.js: `navTo`, the button `nav-sync` with the link that it stores, and what a change of
-- the fragment does.
pub mod Store
pub mod Sync
mod Tests
use async_fw.Base.{
  ℕ, Bool, true, false, ◌&&◌, ◌||◌, not, Option, none, some, List, [], ◌∷◌, ◌++◌, if◌then◌else◌,
  ◌==◌, leb, length, drop, all,
}
use async_fw.Base.Int.{pos}
use async_fw.Base.Text.{Text, codes}
use async_fw.Cookie.{Browser, truthy, read_setting, write_setting, erase_setting}
use async_fw.NavTree.Paths.{keep, is_word, strip_path2, hash_value, hash_url, path_name, split_hash}

abbrev pub navpath : Text
navpath = codes "navpath"

-- `cachedLink`
abbrev pub cached_link : Browser → Text
cached_link b = read_setting navpath [] b

-- `toroot` of the page, and the `pathname` and the `hash` of its address.
pub record Page : Type 0 where
  pub toroot : Text
  pub path : Text
  pub hash : Text

-- What `navTo` does: the arguments of `gotoUrl`, and the anchor of a line that glows.
pub record Target : Type 0 where
  pub root : Text
  pub hash : Text
  pub glow : Option Text

-- `sync` is the class of `nav-sync`, `active` that of its icon. `cleared` tells whether the last
-- navigation took the selection off the items first.
pub record Session : Type 0 where
  pub browser : Browser
  pub page : Page
  pub sync : Bool
  pub active : Bool
  pub target : Target
  pub cleared : Bool

abbrev is_digit : ℕ → Bool
is_digit c = leb b'0' c && leb c b'9'

-- `hash.match(/^#l\d+$/)`
unfoldable pub is_line : Text → Bool
is_line (a ∷ b ∷ c ∷ t) = a == b'#' && (b == b'l' && all is_digit (c ∷ t))
is_line _ = false

unfoldable pub split_target : Text → Text → Target
unfolding is_line
split_target root hash =
    if is_line hash
    then record { root = root; hash = []; glow = some (drop 1 hash) }
    else record { root = root; hash = hash; glow = none }

-- The fragment of a stored link.
abbrev pub link_hash : Option Text → Text
link_hash none = []
link_hash (some t) = b'#' ∷ keep (λ c. is_word c || c == b'-') t

unfoldable pub nav_to : Text → Text → Text → Target
unfolding keep split_hash split_target
nav_to [] root hash = split_target root hash
nav_to (c ∷ t) root hash =
    let (first, second) = split_hash (c ∷ t) in split_target first (link_hash second)

-- The link that the button stores.
abbrev pub page_link : Page → Text
page_link p = strip_path2 (path_name p.path) ++ hash_url p.hash

-- `storeLink` and `deleteLink`
abbrev pub store_link : (date link : Text) → (sync : Bool) → Browser → Browser
store_link date link sync b = if sync then b else write_setting date navpath link (pos 0) b

-- A page is loaded: its html has `nav-sync` with the class `sync`.
unfoldable pub load : Page → Browser → Session
unfolding read_setting hash_url nav_to
load p b = record {
  browser = b;
  page = p;
  sync = not (truthy (some (cached_link b)));
  active = not (truthy (some (cached_link b)));
  target = nav_to (cached_link b) p.toroot (hash_url p.hash);
  cleared = false;
}

unfoldable pub click_sync : Text → Session → Session
unfolding write_setting erase_setting strip_path2 path_name hash_url
click_sync date s =
    if s.sync
    then record s {
      sync = false;
      active = false;
      browser = store_link date (page_link s.page) false s.browser;
    }
    else record s { sync = true; active = true; browser = erase_setting date navpath s.browser }

-- The handler of a link of the tree stores the link; what the browser then loads is a step of its own.
unfoldable pub click_link : (date link : Text) → Session → Session
unfolding write_setting
click_link date link s = record s { browser = store_link date link s.sync s.browser }

-- The fragment changes to `hash`. `animating` is `animationInProgress`, and `found` whether the item
-- of the new address is there and selected.
unfoldable pub hash_change : (animating found : Bool) → Text → Session → Session
unfolding read_setting strip_path2 path_name hash_url nav_to
hash_change animating found hash s =
    let s' = record s { page = record s.page { hash = hash } } in
    if animating
    then s'
    else if leb 2 (length hash)
    then record s' {
      cleared = not found;
      target = nav_to (cached_link s.browser) (strip_path2 (path_name s.page.path)) (hash_url hash);
    }
    else record s' {
      cleared = true;
      target = nav_to (cached_link s.browser) s.page.toroot (hash_url hash);
    }

pub data Step : Type 0 where
  loads : Page → Step
  clicks_sync : Text → Step
  clicks_link : (date link : Text) → Step
  changes : (animating found : Bool) → (hash : Text) → Step

unfoldable pub step : Step → Session → Session
unfolding load click_sync click_link hash_change
step (loads p) s = load p s.browser
step (clicks_sync date) s = click_sync date s
step (clicks_link date link) s = click_link date link s
step (changes a f hash) s = hash_change a f hash s

unfoldable pub run : List Step → Session → Session
unfolding step
run [] s = s
run (e ∷ es) s = run es (step e s)
