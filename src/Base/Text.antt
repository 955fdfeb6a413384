-- ===== src/Base/Text.antt =====
-- JavaScript strings: lists of UTF-16 code units, with the methods that the scripts call.
use Prim.Native.Nat.{ℕ, suc, ◌-◌}
use Prim.Native.Char.{code}
use Prim.Native.String.{String}
use mathlib.Core.Path.{◌≡◌, refl}
use mathlib.Core.Logic.{◌↔◌, ◌⊎◌, inl, inr}
use mathlib.Core.Bool.{Bool, true, false, ◌&&◌, not}
use mathlib.Core.Option.{Option, none, some}
use mathlib.Core.List.{List, [], ◌∷◌, ◌++◌}
use native.Mathlib.Omega.{arith}
use async_fw.Base.Tests.{◌==◌, ltb, if◌then◌else◌}
use async_fw.Base.Lists.{take, drop, all}

abbrev pub Text : Type 0
Text = List ℕ

abbrev pub codes : String → Text
codes String.[] = []
codes (String.◌∷◌ c s) = code c ∷ codes s

-- `===` on strings.
unfoldable pub text_eq : Text → Text → Bool
text_eq [] [] = true
text_eq [] (_ ∷ _) = false
text_eq (_ ∷ _) [] = false
text_eq (a ∷ s) (b ∷ t) = a == b && text_eq s t

-- `<=` on strings, by code units.
unfoldable pub text_leb : Text → Text → Bool
text_leb [] t = true
text_leb (_ ∷ _) [] = false
text_leb (a ∷ s) (b ∷ t) = if ltb a b then true else (a == b && text_leb s t)

-- `t.startsWith(p)`
unfoldable pub starts_with : Text → Text → Bool
starts_with [] t = true
starts_with (_ ∷ _) [] = false
starts_with (a ∷ p) (b ∷ t) = a == b && starts_with p t

abbrev pub shift : Option ℕ → Option ℕ
shift none = none
shift (some i) = some (suc i)

-- `t.indexOf(p)`, where -1 is `none`.
unfoldable pub index_of : Text → Text → Option ℕ
unfolding starts_with
index_of p [] = if starts_with p [] then some 0 else none
index_of p (c ∷ t) = if starts_with p (c ∷ t) then some 0 else shift (index_of p t)

-- `t.lastIndexOf(c)` of one code unit.
unfoldable pub last_index_of : ℕ → Text → Option ℕ
last_index_of c [] = none
last_index_of c (x ∷ t) = elim (last_index_of c t) [
  | some i ↦ some (suc i)
  | none ↦ if x == c then some 0 else none
]

-- `t.substring(from, to)` for `from <= to <= t.length`.
unfoldable pub substring : ℕ → ℕ → Text → Text
substring from to t = take (to - from) (drop from t)

pub text_eq_refl : (s : Text) → text_eq s s ≡ true
unfolding text_eq
text_eq_refl [] = refl
text_eq_refl (a ∷ s) = ground (arith, text_eq_refl s)

pub text_eq→eq : (s t : Text) → text_eq s t ≡ true → s ≡ t
unfolding text_eq
text_eq→eq [] [] h = refl
text_eq→eq [] (_ ∷ _) h = cc
text_eq→eq (_ ∷ _) [] h = cc
text_eq→eq (a ∷ s) (b ∷ t) h = ground (arith, text_eq→eq s t)

pub text_eq_iff : (s t : Text) → (text_eq s t ≡ true) ↔ (s ≡ t)
text_eq_iff s t = (text_eq→eq s t, λ e. rw (← e) (text_eq_refl s))

pub starts_with-append : (p t : Text) → starts_with p (p ++ t) ≡ true
unfolding starts_with
starts_with-append [] t = refl
starts_with-append (a ∷ p) t = ground (arith, starts_with-append p t)

pub index_of-append : (p t : Text) → index_of p (p ++ t) ≡ some 0
unfolding index_of
index_of-append [] [] = refl
index_of-append [] (_ ∷ _) = refl
index_of-append (a ∷ p) t = rw (starts_with-append (a ∷ p) t)

-- The order of strings is total and transitive.
pub text_leb_trans :
    (r s t : Text) → text_leb r s ≡ true → text_leb s t ≡ true → text_leb r t ≡ true
unfolding text_leb
text_leb_trans [] s t h k = refl
text_leb_trans (_ ∷ _) [] t h k = cc
text_leb_trans (_ ∷ _) (_ ∷ _) [] h k = cc
text_leb_trans (a ∷ r) (b ∷ s) (c ∷ t) h k = ground (arith, text_leb_trans r s t)

pub text_leb_total : (s t : Text) → (text_leb s t ≡ true) ⊎ (text_leb t s ≡ true)
unfolding text_leb
text_leb_total [] t = inl refl
text_leb_total (_ ∷ _) [] = inr refl
text_leb_total (a ∷ s) (b ∷ t) = ground (arith, text_leb_total s t)

-- No code unit of the text is `c`.
abbrev pub Free : ℕ → Text → Type 0
Free c [] = Unit
Free c (x ∷ t) = ((x == c) ≡ false) × Free c t

pub Free-of_all : (c : ℕ) (t : Text) → all (λ x. not (x == c)) t ≡ true → Free c t
Free-of_all c [] h = tt
Free-of_all c (x ∷ t) h = (ground arith, Free-of_all c t (ground arith))

pub Free-append : (c : ℕ) (s t : Text) → Free c s → Free c t → Free c (s ++ t)
Free-append c [] t h k = k
Free-append c (x ∷ s) t h k = (h.0, Free-append c s t h.1 k)
