-- ===== src/Cookie/RoundTrip.antt =====
-- docs/cookie.js: settings kept in `document.cookie`.
use native.Mathlib.Nat.{zero-add}
use async_fw.Base.{
  ℕ, ◌+◌, ◌≡◌, refl, sym, subst, ap, ◌∙◌, Bool, true, false, any, if◌then◌else◌, ◌==◌, none, some,
  [], ◌∷◌, ◌++◌, length, take, drop, arith, append_assoc, take-append, drop-append, take-length,
  append_cons, length-append,
}
use async_fw.Base.Int.{ℤ}
use async_fw.Base.Text.{
  Free, Free-append, Text, codes, text_eq_refl, index_of, index_of-append, substring,
}
use async_fw.Cookie.Jar.{
  Storage, set_item, document_cookie, assign_cookie, before, before-append, after-append, trim,
  is_control,
}
use async_fw.Cookie.{
  Browser, key, value_end, read_cookie, read_setting, is_past, is_zero, attributes, write_setting,
}

index_of-Free : (c : ℕ) (s : Text) → Free c s → index_of (c ∷ []) s ≡ none
unfolding index_of
index_of-Free c [] h = refl
index_of-Free c (x ∷ s) h = ground (arith, index_of-Free c s h.1)

index_of-Free-append :
    (c : ℕ) (s t : Text) → Free c s → index_of (c ∷ []) (s ++ c ∷ t) ≡ some (length s)
unfolding index_of
index_of-Free-append c [] t h = ground arith
index_of-Free-append c (x ∷ s) t h = ground (arith, index_of-Free-append c s t h.1)

-- What is read behind a name at the start of the text, given where it ends.
read_cookie-at :
    (name v d : Text) (n : ℕ)
    → value_end (length name) (name ++ v) ≡ length name + n
    → read_cookie name (name ++ v) d ≡ take n v
unfolding read_cookie substring
read_cookie-at name v d n e =
    rw (index_of-append name v, zero-add, e, drop-append name v)
      (ap (λ (k : ℕ). take k v) (omega arith))

-- The text that follows a name is read up to its ";" or its end.
read_cookie-last : (name v d : Text) → Free b';' v → read_cookie name (name ++ v) d ≡ v
read_cookie-last name v d f = read_cookie-at name v d (length v) end ∙ take-length v
  where
    end : value_end (length name) (name ++ v) ≡ length name + length v
    end = unfold value_end in rw (drop-append name v, index_of-Free _ v f) (length-append name v)

read_cookie-first :
    (name v t d : Text) → Free b';' v → read_cookie name (name ++ (v ++ b';' ∷ t)) d ≡ v
read_cookie-first name v t d f =
    read_cookie-at name (v ++ b';' ∷ t) d (length v) end ∙ take-append v (b';' ∷ t)
  where
    end : value_end (length name) (name ++ (v ++ b';' ∷ t)) ≡ length name + length v
    end = unfold value_end in rw (drop-append name (v ++ b';' ∷ t), index_of-Free-append _ v t f)

-- The cookie of this name stands first in the jar, or the jar is empty.
abbrev pub Leads : Text → Storage → Type 0
Leads k [] = Unit
Leads k ((j, v) ∷ m) = j ≡ k

read_cookie-lead :
    (k v t d : Text)
    → Free b';' v
    → read_cookie (k ++ codes "=") (k ++ b'=' ∷ (v ++ b';' ∷ t)) d ≡ v
read_cookie-lead k v t d f =
    subst (λ u. read_cookie (k ++ codes "=") u d ≡ v) (sym (append_cons k (v ++ b';' ∷ t) b'='))
      (read_cookie-first (k ++ codes "=") v t d f)

read_cookie-Leads :
    (k v d : Text) (m : Storage)
    → Free b';' v
    → Leads k m
    → read_cookie (k ++ codes "=") (document_cookie (set_item k v m)) d ≡ v
unfolding set_item document_cookie
read_cookie-Leads k v d [] f l = rw (append_cons k v b'=') (read_cookie-last _ v d f)
read_cookie-Leads k v d ((j, w) ∷ []) f l =
    rw (l, text_eq_refl k, append_cons k v b'=') (read_cookie-last _ v d f)
read_cookie-Leads k v d ((j, w) ∷ p ∷ m) f l =
    rw (l, text_eq_refl k) (read_cookie-lead k v (b' ' ∷ document_cookie (p ∷ m)) d f)

any_append :
    (p : ℕ → Bool) (s t : Text) → any p s ≡ false → any p t ≡ false → any p (s ++ t) ≡ false
any_append p [] t h k = k
any_append p (c ∷ s) t h k = ground (arith, any_append p s t)

any_there : (s t : Text) → any (λ c. c == b'=') (s ++ b'=' ∷ t) ≡ true
any_there [] t = refl
any_there (c ∷ s) t = ground (arith, any_there s t)

-- The pair that the browser takes from the line that `writeSetting` assigns.
module _ (date cookie val : Text) (days : ℤ) where
  abbrev line : Text
  line = key cookie ++ (codes "=" ++ (val ++ attributes date days))

  pair-line : Free b';' (key cookie) → Free b';' val → before b';' line ≡ key cookie ++ b'=' ∷ val
  pair-line f g =
      subst (λ u. before b';' u ≡ key cookie ++ b'=' ∷ val)
        (append_assoc (key cookie) (b'=' ∷ val) (attributes date days))
        (before-append b';' (key cookie ++ b'=' ∷ val) (drop 1 (attributes date days))
          (Free-append b';' (key cookie) (b'=' ∷ val) f (refl, g)))

  any-line :
      any is_control (key cookie) ≡ false
      → any is_control val ≡ false
      → any is_control date ≡ false
      → any is_control line ≡ false
  any-line k v d =
      any_append is_control (key cookie) (b'=' ∷ (val ++ attributes date days)) k
        (any_append is_control val (attributes date days) v (by_days (is_zero days)))
    where
      by_days :
          (session : Bool)
          → any is_control (
              codes "; SameSite=Lax;"
              ++ ((if session then [] else codes "expires=" ++ (date ++ codes ";"))
                  ++ codes "path=/"))
            ≡ false
      by_days true = refl
      by_days false =
          any_append is_control (date ++ codes ";") (codes "path=/")
            (any_append is_control date (codes ";") d refl) refl

  assign_cookie-line :
      (m : Storage)
      → any is_control line ≡ false
      → trim (key cookie) ≡ key cookie
      → trim val ≡ val
      → Free b';' (key cookie)
      → Free b'=' (key cookie)
      → Free b';' val
      → assign_cookie line false m ≡ set_item (key cookie) val m
  unfolding assign_cookie
  assign_cookie-line m plain k v f g h =
      rw
        (
          plain,
          pair-line f h,
          before-append b'=' (key cookie) val g,
          after-append b'=' (key cookie) val g,
          any_there (key cookie) val,
          k,
          v,
        )
        refl

  -- Outside Chrome a text with no ";" is read back after it is written with a date that is not past,
  -- if the jar is empty or the cookie of this name stands first in it, and the name has no ";" and no
  -- "=", provided that the name and the text neither begin nor end in a blank and that they and the
  -- date have no control characters.
  pub read_setting-write_setting_jar :
      (d : Text) (b : Browser)
      → b.chrome ≡ false
      → is_past days ≡ false
      → trim (key cookie) ≡ key cookie
      → trim val ≡ val
      → any is_control (key cookie) ≡ false
      → any is_control val ≡ false
      → any is_control date ≡ false
      → Free b';' (key cookie)
      → Free b'=' (key cookie)
      → Free b';' val
      → Leads (key cookie) b.jar
      → read_setting cookie d (write_setting date cookie val days b) ≡ val
  unfolding read_setting write_setting
  read_setting-write_setting_jar d b c past tk tv ck cv cd f g h l =
      simp (c, past, assign_cookie-line b.jar (any-line ck cv cd) tk tv f g h)
        (read_cookie-Leads (key cookie) val d b.jar h l)
