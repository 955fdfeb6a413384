-- ===== src/Cookie.antt =====
-- docs/cookie.js: the settings of the site, in the web storage of Chrome and in cookies elsewhere.
pub mod Jar
pub mod Laws
pub mod RoundTrip
pub mod Kept
mod Tests
use async_fw.Base.{
  ℕ, ◌+◌, Bool, true, false, Option, none, some, List, [], ◌∷◌, ◌++◌, if◌then◌else◌, length, drop,
}
use async_fw.Base.Int.{ℤ, pos, negsuc}
use async_fw.Base.Text.{Text, codes, text_eq, index_of, substring}
use Jar.{Storage, get_item, set_item, remove_item, document_cookie, assign_cookie}

-- `chrome` is `window.chrome`, `jar` the cookies of the page.
pub record Browser : Type 0 where
  pub chrome : Bool
  pub local : Storage
  pub session : Storage
  pub jar : Storage

abbrev pub cookie_namespace : Text
cookie_namespace = codes "doxygen_"

abbrev pub key : Text → Text
key cookie = cookie_namespace ++ cookie

-- A missing or empty text is falsy.
abbrev pub truthy : Option Text → Bool
truthy none = false
truthy (some []) = false
truthy (some (_ ∷ _)) = true

-- `a || b`
abbrev pub or_else : Option Text → Option Text → Option Text
or_else a b = if truthy a then a else b

abbrev pub text_or : Option Text → Text → Text
text_or none d = d
text_or (some t) d = t

-- `document.cookie.indexOf(";", valStart)`, or the end of the text.
abbrev end_or : ℕ → Text → Option ℕ → ℕ
end_or start t none = length t
end_or start t (some i) = start + i

value_end : ℕ → Text → ℕ
value_end start t = end_or start t (index_of (codes ";") (drop start t))

abbrev value_at : Text → Text → Text → Option ℕ → Text
value_at name t def_val none = def_val
value_at name t def_val (some i) =
    let val_start = i + length name in substring val_start (value_end val_start t) t

read_cookie : Text → Text → Text → Text
unfolding value_end
read_cookie name t def_val = value_at name t def_val (index_of name t)

unfoldable pub read_setting : Text → Text → Browser → Text
unfolding read_cookie
read_setting cookie def_val b =
    if b.chrome
    then (let val = or_else (get_item (key cookie) b.local) (get_item (key cookie) b.session) in
        if truthy val then text_or val def_val else def_val)
    else read_cookie (key cookie ++ codes "=") (document_cookie b.jar) def_val

abbrev pub forever : ℤ
forever = pos 3650

abbrev pub is_zero : ℤ → Bool
is_zero (pos ℕ.zero) = true
is_zero _ = false

-- A negative number of days puts the date of expiry before now.
abbrev is_past : ℤ → Bool
is_past (pos _) = false
is_past (negsuc _) = true

-- The attributes behind the pair; the text of the date is the browser's, and only whether it is
-- past counts.
abbrev attributes : Text → ℤ → Text
attributes date days =
    codes "; SameSite=Lax;"
    ++ ((if is_zero days then [] else codes "expires=" ++ (date ++ codes ";")) ++ codes "path=/")

unfoldable pub write_setting : Text → Text → Text → ℤ → Browser → Browser
write_setting date cookie val days b =
    if b.chrome
    then (if is_zero days
        then record b { session = set_item (key cookie) val b.session }
        else record b { local = set_item (key cookie) val b.local })
    else record b {
      jar =
          assign_cookie (key cookie ++ (codes "=" ++ (val ++ attributes date days))) (is_past days)
            b.jar;
    }

unfoldable pub erase_setting : Text → Text → Browser → Browser
unfolding write_setting
erase_setting date cookie b =
    if b.chrome
    then (if truthy (get_item (key cookie) b.local)
        then record b { local = remove_item (key cookie) b.local }
        else if truthy (get_item (key cookie) b.session)
        then record b { session = remove_item (key cookie) b.session }
        else b)
    else write_setting date cookie [] (negsuc 0) b
