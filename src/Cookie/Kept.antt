-- ===== src/Cookie/Kept.antt =====
-- docs/cookie.js: what a part of the site that keeps a text for the session relies on, as an
-- interface, and that the settings give it in Chrome.
use async_fw.Base.{◌≡◌, true, false, some, [], arith}
use async_fw.Base.Int.{pos}
use async_fw.Base.Text.{Text}
use async_fw.Cookie.Jar.{get_item}
use async_fw.Cookie.Laws.{read_setting-write_setting, read_setting-erase_setting}
use async_fw.Cookie.{Browser, key, truthy, read_setting, write_setting, erase_setting}

-- The browsers of `Good` keep a text, and a write or an erase leads to such a browser again.
pub record Kept (cookie : Text) (Good : Browser → Type 0) : Type 1 where
  pub good_write :
      (date v : Text) (b : Browser) → Good b → Good (write_setting date cookie v (pos 0) b)
  pub good_erase : (date : Text) (b : Browser) → Good b → Good (erase_setting date cookie b)
  pub read_write :
      (date v : Text) (b : Browser)
      → Good b
      → truthy (some v) ≡ true
      → read_setting cookie [] (write_setting date cookie v (pos 0) b) ≡ v
  pub read_erase :
      (date : Text) (b : Browser)
      → Good b
      → read_setting cookie [] (erase_setting date cookie b) ≡ []

-- Chrome, with no text stored for good.
abbrev pub IsChrome : Text → Browser → Type 0
IsChrome cookie b = (b.chrome ≡ true) × (truthy (get_item (key cookie) b.local) ≡ false)

module _ (cookie date : Text) (b : Browser) where
  not_both : IsChrome cookie b → truthy (get_item (key cookie) b.local) ≡ true → ⊥
  not_both g l = cc g.1

  write_setting-IsChrome :
      (v : Text) → IsChrome cookie b → IsChrome cookie (write_setting date cookie v (pos 0) b)
  unfolding write_setting
  write_setting-IsChrome v g = ground arith

  erase_setting-IsChrome : IsChrome cookie b → IsChrome cookie (erase_setting date cookie b)
  unfolding erase_setting
  erase_setting-IsChrome g = rw (g.0, g.1) (ground arith)

pub IsChrome-Kept : (cookie : Text) → Kept cookie (IsChrome cookie)
IsChrome-Kept cookie = record {
  good_write = λ date v b g. write_setting-IsChrome cookie date b v g;
  good_erase = λ date b g. erase_setting-IsChrome cookie date b g;
  read_write =
      λ date v b g t. read_setting-write_setting date cookie v [] (pos 0) b g.0 t (λ z. g.1);
  read_erase = λ date b g.
      read_setting-erase_setting date cookie [] b g.0 (λ l. absurd (not_both cookie date b g l));
}
