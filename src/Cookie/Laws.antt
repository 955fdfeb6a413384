-- ===== src/Cookie/Laws.antt =====
-- docs/cookie.js: what a read gives after a write and after an erase in Chrome.
use async_fw.Base.{◌≡◌, true, false, some, arith}
use async_fw.Base.Int.{ℤ}
use async_fw.Base.Text.{Text, text_eq_refl}
use async_fw.Cookie.Jar.{get_item, get_item-set_item, get_item-remove_item}
use async_fw.Cookie.{Browser, key, truthy, read_setting, is_zero, write_setting, erase_setting}

module _ (date cookie val d : Text) (days : ℤ) (b : Browser) where
  -- In Chrome a text that is not empty is read back after it is written for good, and after it is
  -- written for the session if no text is stored for good.
  pub read_setting-write_setting :
      b.chrome ≡ true
      → truthy (some val) ≡ true
      → (is_zero days ≡ true → truthy (get_item (key cookie) b.local) ≡ false)
      → read_setting cookie d (write_setting date cookie val days b) ≡ val
  unfolding read_setting write_setting
  read_setting-write_setting c v s = ground (
    arith,
    get_item-set_item (key cookie) (key cookie) val b.local,
    get_item-set_item (key cookie) (key cookie) val b.session,
    text_eq_refl (key cookie),
  )

module _ (date cookie d : Text) (b : Browser) where
  -- In Chrome an erased setting reads as its default, unless it was stored both for good and for
  -- the session.
  pub read_setting-erase_setting :
      b.chrome ≡ true
      → (truthy (get_item (key cookie) b.local) ≡ true
          → truthy (get_item (key cookie) b.session) ≡ false)
      → read_setting cookie d (erase_setting date cookie b) ≡ d
  unfolding read_setting erase_setting
  read_setting-erase_setting c one = ground (
    arith,
    get_item-remove_item (key cookie) (key cookie) b.local,
    get_item-remove_item (key cookie) (key cookie) b.session,
    text_eq_refl (key cookie),
  )

  -- In Chrome an erased setting that was stored both ways reads as the text of the session.
  pub read_setting-erase_setting_both :
      (s : Text)
      → b.chrome ≡ true
      → truthy (get_item (key cookie) b.local) ≡ true
      → get_item (key cookie) b.session ≡ some s
      → truthy (some s) ≡ true
      → read_setting cookie d (erase_setting date cookie b) ≡ s
  unfolding read_setting erase_setting
  read_setting-erase_setting_both s c l e t =
      ground
        (arith, get_item-remove_item (key cookie) (key cookie) b.local, text_eq_refl (key cookie))
