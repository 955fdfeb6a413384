-- ===== src/Outline/Marks/Run.antt =====
-- docs/navtree.js, `updateContentTop`: the entries in view follow one another.
use async_fw.Base.{
  ◌≡◌, refl, ap, Bool, true, false, ◌&&◌, ◌||◌, not, List, [], ◌∷◌, map, any, all, &&_parts, arith,
  Bool-cases, inl, inr,
}
use async_fw.Base.Int.{ℤ, ◌-ℤ◌, ◌≤ℤ◌, ltb_ℤ}
use async_fw.Outline.Marks.{
  Measure, offset, past_end, margin, in_view, next_offset, marks, Scroll, update_content_top,
}

-- The offsets ascend down the page, to `1e10` after the last.
abbrev pub IsAscending : List ℤ → Type 0
IsAscending [] = Unit
IsAscending (y ∷ ys) = (y ≤ℤ next_offset ys) × IsAscending ys

abbrev pub skip : Bool → List Bool → List Bool
skip b [] = []
skip true (true ∷ bs) = skip true bs
skip true (false ∷ bs) = false ∷ bs
skip false (true ∷ bs) = true ∷ bs
skip false (false ∷ bs) = skip false bs

-- Some `false`, then some `true`, then only `false`.
abbrev pub is_run : List Bool → Bool
is_run bs = all not (skip true (skip false bs))

skip_none : (b : Bool) (bs : List Bool) → all not bs ≡ true → all not (skip b bs) ≡ true
skip_none b [] h = refl
skip_none true (true ∷ bs) h = cc
skip_none true (false ∷ bs) h = h
skip_none false (true ∷ bs) h = h
skip_none false (false ∷ bs) h = skip_none false bs h

or_right : (a b : Bool) → b ≡ true → (a || b) ≡ true
or_right a b h = ground arith

abbrev bottom : ℤ → ℤ
bottom height = height -ℤ margin

in_view_up :
    (height y z : ℤ) → y ≤ℤ z → in_view height y z ≡ (ltb_ℤ y (bottom height) && ltb_ℤ margin z)
unfolding in_view
in_view_up height y z le = ground arith

module _ (height : ℤ) where
  marks_below :
      (y : ℤ) (ys : List ℤ)
      → IsAscending (y ∷ ys)
      → ltb_ℤ y (bottom height) ≡ false
      → all not (marks height (y ∷ ys)) ≡ true
  unfolding marks
  marks_below y [] up low = rw (in_view_up height y past_end up.0, low) refl
  marks_below y (z ∷ ys) up low =
      let low' : ltb_ℤ z (bottom height) ≡ false = ground (arith, up.0) in
      rw (in_view_up height y z up.0, low) (marks_below z ys up.1 low')

  marks_inside :
      (ys : List ℤ)
      → IsAscending ys
      → ltb_ℤ margin (next_offset ys) ≡ true
      → all not (skip true (marks height ys)) ≡ true
  unfolding marks
  marks_inside [] up high = refl
  marks_inside (y ∷ ys) up high =
      let high' : ltb_ℤ margin (next_offset ys) ≡ true = ground (arith, up.0) in
      elim (Bool-cases (ltb_ℤ y (bottom height))) [
        | inl seen ↦
            rw (in_view_up height y (next_offset ys) up.0, seen, high') (marks_inside ys up.1 high')
        | inr low ↦ skip_none true (marks height (y ∷ ys)) (marks_below y ys up low)
      ]

  marks-is_run : (ys : List ℤ) → IsAscending ys → is_run (marks height ys) ≡ true
  unfolding marks
  marks-is_run [] up = refl
  marks-is_run (y ∷ ys) up = elim (Bool-cases (in_view height y (next_offset ys))) [
    | inl seen ↦
        let both = rw (in_view_up height y (next_offset ys) up.0) at seen in
        rw seen (
          marks_inside ys up.1
            (&&_parts (ltb_ℤ y (bottom height)) (ltb_ℤ margin (next_offset ys)) both).1)
    | inr not_seen ↦ rw not_seen (marks-is_run ys up.1)
  ]

  any-marks :
      (y : ℤ) (ys : List ℤ)
      → IsAscending (y ∷ ys)
      → ltb_ℤ margin (bottom height) ≡ true
      → ltb_ℤ y (bottom height) ≡ true
      → any (λ b. b) (marks height (y ∷ ys)) ≡ true
  unfolding marks
  any-marks y [] up tall above = rw (in_view_up height y past_end up.0, above) refl
  any-marks y (z ∷ ys) up tall above = elim (Bool-cases (ltb_ℤ z (bottom height))) [
    | inl higher ↦
        let later = any-marks z ys up.1 tall higher in or_right (in_view height y z) _ later
    | inr lower ↦
        let high : ltb_ℤ margin z ≡ true = ground arith in
        rw (in_view_up height y z up.0, above, high) refl
  ]

-- From each heading to the next, whether that part of the page reaches into the content, of which
-- the first and the last 10 pixels do not count.
abbrev pub overlaps : ℤ → List ℤ → List Bool
overlaps height [] = []
overlaps height (y ∷ ys) =
    (ltb_ℤ y (height -ℤ margin) && ltb_ℤ margin (next_offset ys)) ∷ overlaps height ys

marks-overlaps : (height : ℤ) (ys : List ℤ) → IsAscending ys → marks height ys ≡ overlaps height ys
unfolding marks
marks-overlaps height [] up = refl
marks-overlaps height (y ∷ ys) up = rw (in_view_up height y (next_offset ys) up.0) (
    ap ((ltb_ℤ y (bottom height) && ltb_ℤ margin (next_offset ys)) ∷◌)
      (marks-overlaps height ys up.1))

-- On a page with the outline, where the headings ascend, the content is more than 20 pixels high
-- and the first heading starts above its last 10 pixels: exactly the entries are marked whose part
-- of the page, up to the next heading, starts above the last 10 pixels of the content and ends below
-- its first 10. They follow one another, and there is one.
pub update_content_top-is_run :
    (height yc list_top source : ℤ) (m : Measure) (ms : List Measure) (s : Scroll)
    → IsAscending (map (offset yc) (m ∷ ms))
    → ltb_ℤ margin (height -ℤ margin) ≡ true
    → ltb_ℤ (offset yc m) (height -ℤ margin) ≡ true
    → ((update_content_top true height yc list_top source (m ∷ ms) s).0
        ≡ overlaps height (map (offset yc) (m ∷ ms)))
      × (is_run (update_content_top true height yc list_top source (m ∷ ms) s).0 ≡ true)
      × (any (λ b. b) (update_content_top true height yc list_top source (m ∷ ms) s).0 ≡ true)
unfolding update_content_top
update_content_top-is_run height yc list_top source m ms s up tall above = (
  marks-overlaps height (map (offset yc) (m ∷ ms)) up,
  marks-is_run height (map (offset yc) (m ∷ ms)) up,
  any-marks height (offset yc m) (map (offset yc) ms) up tall above,
)
