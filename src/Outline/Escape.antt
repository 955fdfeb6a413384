-- ===== src/Outline/Escape.antt =====
-- docs/navtree.js, `escapeHtml`: the text of an entry as html.
use async_fw.Base.{
  ℕ, ◌≡◌, refl, Bool, true, false, Option, none, some, [], ◌∷◌, ◌++◌, if◌then◌else◌, ◌==◌, arith,
  Bool-cases, ==_iff, subst, sym, not, any, all, inl, inr,
}
use async_fw.Base.Text.{Text, codes}

-- `entityMap`
abbrev pub entity_map : ℕ → Option Text
entity_map c =
    if c == b'&'
    then some (codes "&amp;")
    else if c == b'<'
    then some (codes "&lt;")
    else if c == b'>'
    then some (codes "&gt;")
    else if c == b'"'
    then some (codes "&quot;")
    else if c == b'\''
    then some (codes "&#39;")
    else if c == b'/'
    then some (codes "&#x2F;")
    else if c == b'`'
    then some (codes "&#x60;")
    else if c == b'='
    then some (codes "&#x3D;")
    else none

abbrev char_html : Option Text → ℕ → Text
char_html none c = c ∷ []
char_html (some e) c = e

unfoldable pub escape_html : Text → Text
escape_html [] = []
escape_html (c ∷ t) = char_html (entity_map c) c ++ escape_html t

-- What a browser shows for html with no tags: each reference as its character.
pub data Shows : Text → Text → Type 0 where
  shows_nothing : Shows [] []
  shows_char : {c : ℕ} {h t : Text} → (c == b'&') ≡ false → Shows h t → Shows (c ∷ h) (c ∷ t)
  shows_amp : {h t : Text} → Shows h t → Shows (codes "&amp;" ++ h) (b'&' ∷ t)
  shows_lt : {h t : Text} → Shows h t → Shows (codes "&lt;" ++ h) (b'<' ∷ t)
  shows_gt : {h t : Text} → Shows h t → Shows (codes "&gt;" ++ h) (b'>' ∷ t)
  shows_quot : {h t : Text} → Shows h t → Shows (codes "&quot;" ++ h) (b'"' ∷ t)
  shows_39 : {h t : Text} → Shows h t → Shows (codes "&#39;" ++ h) (b'\'' ∷ t)
  shows_2f : {h t : Text} → Shows h t → Shows (codes "&#x2F;" ++ h) (b'/' ∷ t)
  shows_60 : {h t : Text} → Shows h t → Shows (codes "&#x60;" ++ h) (b'`' ∷ t)
  shows_3d : {h t : Text} → Shows h t → Shows (codes "&#x3D;" ++ h) (b'=' ∷ t)

-- A character that html gives no meaning but "&".
abbrev pub is_plain : ℕ → Bool
is_plain d = not (any (λ x. d == x) (codes "<>\"'`=/"))

abbrev IsShown : Text → ℕ → Type 0
IsShown t c =
    Shows (char_html (entity_map c) c ++ escape_html t) (c ∷ t)
    × (all is_plain (char_html (entity_map c) c) ≡ true)

module _ (t : Text) (ih : Shows (escape_html t) t) (c : ℕ) where
  at_char : (x : ℕ) → (c == x) ≡ true → IsShown t x → IsShown t c
  at_char x e s = subst (IsShown t) (sym (((==_iff c x).0) e)) s

  char-IsShown : IsShown t c
  char-IsShown = elim (Bool-cases (c == b'&')) [
    | inl e ↦ at_char b'&' e (shows_amp ih, refl)
    | inr amp ↦ elim (Bool-cases (c == b'<')) [
      | inl e ↦ at_char b'<' e (shows_lt ih, refl)
      | inr lt ↦ elim (Bool-cases (c == b'>')) [
        | inl e ↦ at_char b'>' e (shows_gt ih, refl)
        | inr gt ↦ elim (Bool-cases (c == b'"')) [
          | inl e ↦ at_char b'"' e (shows_quot ih, refl)
          | inr quot ↦ elim (Bool-cases (c == b'\'')) [
            | inl e ↦ at_char b'\'' e (shows_39 ih, refl)
            | inr q39 ↦ elim (Bool-cases (c == b'/')) [
              | inl e ↦ at_char b'/' e (shows_2f ih, refl)
              | inr q2f ↦ elim (Bool-cases (c == b'`')) [
                | inl e ↦ at_char b'`' e (shows_60 ih, refl)
                | inr q60 ↦ elim (Bool-cases (c == b'=')) [
                  | inl e ↦ at_char b'=' e (shows_3d ih, refl)
                  | inr q3d ↦
                      rw (amp, lt, gt, quot, q39, q2f, q60, q3d)
                        (shows_char amp ih, rw (lt, gt, quot, q39, q2f, q60, q3d) refl)
                ]
              ]
            ]
          ]
        ]
      ]
    ]
  ]

all-append : (p : ℕ → Bool) (s t : Text) → all p s ≡ true → all p t ≡ true → all p (s ++ t) ≡ true
all-append p [] t h k = k
all-append p (c ∷ s) t h k = ground (arith, all-append p s t)

-- What `escapeHtml` makes of a text has none of the characters `<>"'`=/`, and as html a browser
-- shows it as the text.
pub escape_html-Shows : (t : Text) → Shows (escape_html t) t × (all is_plain (escape_html t) ≡ true)
unfolding escape_html
escape_html-Shows [] = (shows_nothing, refl)
escape_html-Shows (c ∷ t) =
    let (shown, plain) = escape_html-Shows t in
    let (here, safe) = char-IsShown t shown c in
    (here, all-append is_plain (char_html (entity_map c) c) (escape_html t) safe plain)
