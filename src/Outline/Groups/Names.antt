-- ===== src/Outline/Groups/Names.antt =====
-- docs/navtree.js, `initPageToc`: the name of a member in the title of its documentation.
use async_fw.Base.{
  ℕ, ◌≡◌, refl, ap, Bool, true, false, ◌&&◌, some, [], ◌∷◌, ◌++◌, ◌==◌, leb, all, &&_parts,
}
use async_fw.Base.Text.{Text, codes, text_eq, Free}
use async_fw.Base.Spaces.{drop_spaces}
use async_fw.Outline.Groups.{
  drop_digits, some_digits, is_last_bracket, is_overload, is_call_end, member_name,
}

abbrev pub is_digit : ℕ → Bool
is_digit c = leb b'0' c && leb c b'9'

-- A number: a digit and the digits after it.
abbrev pub IsNumber : Text → Type 0
IsNumber [] = ⊥
IsNumber (c ∷ t) = all is_digit (c ∷ t) ≡ true

drop_digits-append :
    (d rest : Text) (c : ℕ)
    → all is_digit d ≡ true
    → is_digit c ≡ false
    → drop_digits (d ++ c ∷ rest) ≡ c ∷ rest
unfolding drop_digits
drop_digits-append [] rest c h n = rw n refl
drop_digits-append (x ∷ d) rest c h n =
    let (hx, hd) = &&_parts (is_digit x) (all is_digit d) h in
    rw hx (drop_digits-append d rest c hd n)

some_digits-append :
    (d rest : Text) (c : ℕ)
    → IsNumber d
    → is_digit c ≡ false
    → some_digits (d ++ c ∷ rest) ≡ some (c ∷ rest)
unfolding some_digits
some_digits-append [] rest c h n = absurd h
some_digits-append (x ∷ d) rest c h n =
    let (hx, hd) = &&_parts (is_digit x) (all is_digit d) h in
    rw hx (ap some (drop_digits-append d rest c hd n))

is_call_end_other : (x : ℕ) (t : Text) → (x == b'(') ≡ false → is_call_end (x ∷ t) ≡ false
is_call_end_other x [] h = refl
is_call_end_other x (y ∷ t) h = rw h refl

member_name-call_end :
    (name t : Text) → Free b'(' name → is_call_end t ≡ true → member_name (name ++ t) ≡ name
unfolding member_name
member_name-call_end [] [] f e = refl
member_name-call_end [] (c ∷ t) f e = rw e refl
member_name-call_end (x ∷ name) t f e =
    rw (is_call_end_other x (name ++ t) f.0) (ap (x ∷◌) (member_name-call_end name t f.1 e))

member_name-Free : (name : Text) → Free b'(' name → member_name name ≡ name
unfolding member_name
member_name-Free [] f = refl
member_name-Free (x ∷ name) f =
    rw (is_call_end_other x name f.0) (ap (x ∷◌) (member_name-Free name f.1))

-- What ends the title of function i of j.
abbrev pub overload : Text → Text → Text
overload i j = codes "() [" ++ (i ++ b'/' ∷ (j ++ codes "]"))

is_call_end-overload : (i j : Text) → IsNumber i → IsNumber j → is_call_end (overload i j) ≡ true
unfolding is_overload is_last_bracket drop_spaces text_eq
is_call_end-overload i j hi hj =
    rw (some_digits-append i (j ++ codes "]") b'/' hi refl, some_digits-append j [] b']' hj refl)
      refl

-- The name of a member with no "(" in it is got back from the title that it has alone, as a function
-- and as one of several functions of the name.
pub member_name-append :
    (name i j : Text)
    → Free b'(' name
    → IsNumber i
    → IsNumber j
    → (member_name name ≡ name)
      × (member_name (name ++ codes "()") ≡ name)
      × (member_name (name ++ overload i j) ≡ name)
member_name-append name i j f hi hj = (
  member_name-Free name f,
  member_name-call_end name (codes "()") f (unfold text_eq in refl),
  member_name-call_end name (overload i j) f (is_call_end-overload i j hi hj),
)
