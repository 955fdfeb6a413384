-- ===== src/Cookie/Tests.antt =====
-- docs/cookie.js: reads and writes in concrete browsers.
use async_fw.Base.{◌≡◌, refl, true, false, [], ◌∷◌, ◌++◌}
use async_fw.Base.Text.{Free-of_all, Text, codes, text_eq, index_of, substring}
use async_fw.Cookie.Jar.{get_item, trim, document_cookie}
use async_fw.Cookie.{Browser, key, forever, read_setting, write_setting, erase_setting}
use async_fw.Cookie.Laws.{read_setting-erase_setting_both}
use async_fw.Cookie.RoundTrip.{read_setting-write_setting_jar}

abbrev navpath : Text
navpath = codes "navpath"

abbrev chrome : Browser
chrome = record { chrome = true; local = []; session = []; jar = [] }

abbrev firefox : Browser
firefox = record { chrome = false; local = []; session = []; jar = [] }

-- `navpath` is stored both ways.
abbrev both : Browser
both = record chrome {
  local = (key navpath, codes "a.html") ∷ [];
  session = (key navpath, codes "b.html") ∷ [];
}

read_setting-erase_setting_both_example :
    read_setting navpath [] (erase_setting [] navpath both) ≡ codes "b.html"
unfolding get_item text_eq
read_setting-erase_setting_both_example =
    read_setting-erase_setting_both [] navpath [] both (codes "b.html") refl refl refl refl

read_setting-write_setting_jar_example :
    read_setting navpath [] (
      write_setting
        (codes "Thu")
        navpath
        (codes "a.html#b")
        forever
        (record firefox { jar = (key navpath, codes "x") ∷ (codes "k", codes "v") ∷ [] }))
    ≡ codes "a.html#b"
unfolding trim
read_setting-write_setting_jar_example =
    read_setting-write_setting_jar (codes "Thu") navpath (codes "a.html#b") forever []
      (record firefox { jar = (key navpath, codes "x") ∷ (codes "k", codes "v") ∷ [] }) refl refl
      refl refl refl refl refl (Free-of_all b';' (key navpath) refl)
      (Free-of_all b'=' (key navpath) refl) (Free-of_all b';' (codes "a.html#b") refl) refl

-- The text of another cookie is read where its name ends in the name asked for.
reads_longer_name :
    read_setting navpath []
      (record firefox { jar = (codes "my" ++ key navpath, codes "z.html") ∷ [] })
    ≡ codes "z.html"
unfolding read_setting document_cookie index_of substring
reads_longer_name = refl
