-- ===== src/Directory/Stripes.antt =====
-- docs/dynsections.js, `updateStripes`: the classes of the rows, by their place among the visible.
use mathlib.Core.Option.{some-injective}
use async_fw.Base.{
  ℕ, zero, suc, ◌+◌, ◌%◌, ◌≡◌, refl, ap, ◌∙◌, Bool, true, ◌&&◌, not, some, List, [], ◌∷◌,
  if◌then◌else◌, ◌==◌, get_elem?, take, arith, Bool-cases, inl, inr,
}
use async_fw.Directory.{TableRow, stripe_from, update_stripes}

abbrev pub shown_count : List TableRow → ℕ
shown_count [] = 0
shown_count (r ∷ rows) = (if r.shown then 1 else 0) + shown_count rows

abbrev pub is_even : ℕ → Bool
is_even n = n % 2 == 0

abbrev striped : Bool → TableRow → TableRow
striped e r = record r { even = r.shown && e; odd = r.shown && not e }

is_even-suc : (n : ℕ) → is_even (suc n) ≡ not (is_even n)
is_even-suc n = ground arith

stripe_from-place :
    (e : Bool) (n : ℕ) (rows : List TableRow) (i : ℕ) (r : TableRow)
    → e ≡ is_even n
    → get_elem? rows i ≡ some r
    → get_elem? (stripe_from e rows) i
      ≡ some (record r {
        even = r.shown && is_even (n + shown_count (take i rows));
        odd = r.shown && not (is_even (n + shown_count (take i rows)));
      })
unfolding stripe_from
stripe_from-place e n [] i r p h = absurd (cc)
stripe_from-place e n (s ∷ rows) zero r p h =
    let base : n + 0 ≡ n = omega arith in
    rw (base, p) (ap (λ q. some (striped (is_even n) q)) (some-injective s r h))
stripe_from-place e n (s ∷ rows) (suc i) r p h = elim (Bool-cases s.shown) [
  | inl b ↦
      let next : not e ≡ is_even (suc n) = rw (p, is_even-suc n) refl in
      let count : n + (1 + shown_count (take i rows)) ≡ suc n + shown_count (take i rows) =
        omega arith in
      simp (b, count) (stripe_from-place (not e) (suc n) rows i r next h)
  | inr b ↦
      let count : n + (0 + shown_count (take i rows)) ≡ n + shown_count (take i rows) =
        omega arith in
      simp (b, count) (stripe_from-place e n rows i r p h)
]

-- A visible row has the class `even` if an even number of visible rows stands before it, and `odd`
-- otherwise; a hidden row has neither, and nothing else of a row changes.
pub update_stripes-place :
    (rows : List TableRow) (i : ℕ) (r : TableRow)
    → get_elem? rows i ≡ some r
    → get_elem? (update_stripes rows) i
      ≡ some (record r {
        even = r.shown && is_even (shown_count (take i rows));
        odd = r.shown && not (is_even (shown_count (take i rows)));
      })
unfolding update_stripes
update_stripes-place rows i r h =
    let base : 0 + shown_count (take i rows) ≡ shown_count (take i rows) = omega arith in
    stripe_from-place true 0 rows i r refl h ∙ ap (λ k. some (striped (is_even k) r)) base
