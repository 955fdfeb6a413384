-- ===== src/Clipboard/Lines.antt =====
-- docs/clipboard.js: the lines of the copied text, against those of the listing that are seen.
use async_fw.Base.{
  ℕ, ◌≡◌, refl, ap, ◌∙◌, sym, Bool, true, false, ◌&&◌, ◌||◌, not, List, [], ◌∷◌, ◌++◌,
  if◌then◌else◌, ◌==◌, any, subst, arith, Bool-cases, &&_parts, ==_iff, inl, inr,
}
use async_fw.Base.Text.{Text, Free}
use async_fw.Base.Spaces.{is_space}
use async_fw.Clipboard.{
  Nodes, remove_marked, text_content, is_terminator, blank_ahead, Node, no_nodes, add, text,
  element, clean_lines, is_empty, drop_newlines, copied_text,
}

or_false : (b : Bool) → (b || false) ≡ b
or_false true = refl
or_false false = refl

or_true : (b : Bool) → (b || true) ≡ true
or_true true = refl
or_true false = refl

abbrev put_char : (newline : Bool) → ℕ → Text × List Text → Text × List Text
put_char true c (first, others) = ([], first ∷ others)
put_char false c (first, others) = (c ∷ first, others)

-- The lines of a text: the first and those after it.
unfoldable pub split_lines : Text → Text × List Text
split_lines [] = ([], [])
split_lines (c ∷ t) = put_char (c == b'\n') c (split_lines t)

-- The lines that have more than blanks.
abbrev pub is_filled : Text → Bool
is_filled t = any (λ c. not (is_space c)) t

abbrev pub filled : List Text → List Text
filled [] = []
filled (l ∷ ls) = if is_filled l then l ∷ filled ls else filled ls

abbrev pub filled_lines : Text → List Text
filled_lines t = let (line, others) = split_lines t in filled (line ∷ others)

-- No other end of a line than the newline.
abbrev pub OnlyNewlines : Text → Type 0
OnlyNewlines t = Free 0xd t × Free 0x2028 t × Free 0x2029 t

abbrev Same : Text × List Text → Text × List Text → Type 0
Same p q = (p.0 ≡ q.0) × (filled p.1 ≡ filled q.1)

-- Of a first line that is blank nothing is left.
abbrev Gone : Text × List Text → Text × List Text → Type 0
Gone p q = (p.0 ≡ []) × (is_filled q.0 ≡ false) × (filled p.1 ≡ filled q.1)

abbrev Within : Bool → Text × List Text → Text × List Text → Type 0
Within true p q = Gone p q
Within false p q = Same p q

put_char-Same :
    (newline ahead : Bool) (c : ℕ) (p q : Text × List Text)
    → Within (newline && ahead) p q
    → Same (put_char newline c p) (put_char newline c q)
put_char-Same true true c p q (gone, blank, same) = (refl, rw (gone, blank) same)
put_char-Same true false c p q (line, same) = (refl, rw (line, same) refl)
put_char-Same false ahead c p q (line, same) = (ap (c ∷◌) line, same)

-- A newline among blanks, the last one or not.
put_char-Gone :
    (newline : Bool) (c : ℕ) (p q : Text × List Text)
    → is_space c ≡ true
    → Gone p q
    → Gone p (put_char newline c q)
put_char-Gone true c p q space (gone, blank, same) = (gone, refl, same ∙ sym (rw blank refl))
put_char-Gone false c p q space (gone, blank, same) = (gone, rw (space, blank) refl, same)

put_char-Within :
    (newline space ahead : Bool) (c : ℕ) (p q : Text × List Text)
    → (newline ≡ true → space ≡ true)
    → (space && ahead) ≡ false
    → Same (put_char newline c p) (put_char newline c q)
    → Within (space && (newline || ahead)) (put_char newline c p) (put_char newline c q)
put_char-Within true true ahead c p q s k (line, same) = (refl, refl, same)
put_char-Within true false ahead c p q s k same = absurd (cc (s refl))
put_char-Within false space ahead c p q s k same = rw k same

newline_space : (c : ℕ) → (c == b'\n') ≡ true → is_space c ≡ true
unfolding is_space
newline_space c h = subst (λ x. is_space x ≡ true) (sym (((==_iff c b'\n').0) h)) refl

terminator_newline : (c : ℕ) (t : Text) → OnlyNewlines (c ∷ t) → is_terminator c ≡ (c == b'\n')
terminator_newline c t (a, b, d) = rw (a.0, b.0, d.0) (or_false (c == b'\n'))

OnlyNewlines-tail : (c : ℕ) (t : Text) → OnlyNewlines (c ∷ t) → OnlyNewlines t
OnlyNewlines-tail c t (a, b, d) = (a.1, b.1, d.1)

module _ (c : ℕ) (t : Text) (o : OnlyNewlines (c ∷ t)) where
  kept-Same :
      Within
        (is_terminator c && blank_ahead t)
        (split_lines (clean_lines (is_terminator c) t))
        (split_lines t)
      → Same (split_lines (c ∷ clean_lines (is_terminator c) t)) (split_lines (c ∷ t))
  unfolding split_lines
  kept-Same w =
      put_char-Same (c == b'\n') (blank_ahead t) c (split_lines (clean_lines (is_terminator c) t))
        (split_lines t)
        (subst
          (λ x.
            Within (x && blank_ahead t) (split_lines (clean_lines (is_terminator c) t))
              (split_lines t))
          (terminator_newline c t o) w)

clean_lines-Within :
    (start : Bool) (t : Text)
    → OnlyNewlines t
    → Within (start && blank_ahead t) (split_lines (clean_lines start t)) (split_lines t)
unfolding clean_lines split_lines
clean_lines-Within true [] o = (refl, refl)
clean_lines-Within false [] o = (refl, refl)
clean_lines-Within false (c ∷ t) o =
    kept-Same c t o (clean_lines-Within (is_terminator c) t (OnlyNewlines-tail c t o))
clean_lines-Within true (c ∷ t) o =
    let kept = kept-Same c t o (clean_lines-Within (is_terminator c) t (OnlyNewlines-tail c t o)) in
    let dropped = clean_lines-Within true t (OnlyNewlines-tail c t o) in
    elim (Bool-cases (is_space c && blank_ahead t)) [
      | inl drop ↦
          let (space, ahead) = &&_parts (is_space c) (blank_ahead t) drop in
          rw (space, ahead, or_true (c == b'\n'))
            (put_char-Gone (c == b'\n') c (split_lines (clean_lines true t)) (split_lines t) space
              (rw ahead at dropped))
      | inr keep ↦ rw keep (
          put_char-Within (c == b'\n') (is_space c) (blank_ahead t) c
            (split_lines (clean_lines (is_terminator c) t)) (split_lines t) (newline_space c) keep
            kept)
    ]

and_false : (b : Bool) → (b && false) ≡ false
and_false true = refl
and_false false = refl

drop_newlines-Same : (t : Text) → Same (split_lines (drop_newlines t)) (split_lines t)
unfolding drop_newlines split_lines
drop_newlines-Same [] = (refl, refl)
drop_newlines-Same (c ∷ t) =
    let same = drop_newlines-Same t in
    elim (Bool-cases (c == b'\n' && is_empty (drop_newlines t))) [
      | inl last ↦
          let (nl, none_left) = &&_parts (c == b'\n') (is_empty (drop_newlines t)) last in
          rw (last, nl) (ended (drop_newlines t) none_left same)
      | inr keep ↦ rw keep (
          put_char-Same (c == b'\n') false c (split_lines (drop_newlines t)) (split_lines t)
            (rw (and_false (c == b'\n')) same))
    ]
  where
    ended :
        (r : Text)
        → is_empty r ≡ true
        → Same (split_lines r) (split_lines t)
        → Same ([], []) (put_char true c (split_lines t))
    ended [] h (line, others) = (refl, rw (sym line) others)
    ended (x ∷ r) h same = absurd (cc h)

-- The last character, or none.
abbrev pub ends_in : ℕ → Text → Bool
ends_in c [] = false
ends_in c (x ∷ []) = x == c
ends_in c (x ∷ y ∷ t) = ends_in c (y ∷ t)

ends_in_kept :
    (c : ℕ) (r : Text)
    → ends_in b'\n' r ≡ false
    → ends_in b'\n' (if c == b'\n' && is_empty r then [] else c ∷ r) ≡ false
ends_in_kept c [] h = elim (Bool-cases (c == b'\n')) [
  | inl nl ↦ rw nl refl
  | inr other ↦ rw other other
]
ends_in_kept c (y ∷ r) h = rw (and_false (c == b'\n')) h

ends_in-drop_newlines : (t : Text) → ends_in b'\n' (drop_newlines t) ≡ false
unfolding drop_newlines
ends_in-drop_newlines [] = refl
ends_in-drop_newlines (c ∷ t) = ends_in_kept c (drop_newlines t) (ends_in-drop_newlines t)

filled-Same : (p q : Text × List Text) → Same p q → filled (p.0 ∷ p.1) ≡ filled (q.0 ∷ q.1)
filled-Same p q (line, others) = rw (line, others) refl

clean_lines_filled :
    (t : Text) → OnlyNewlines t → filled_lines (clean_lines true t) ≡ filled_lines t
clean_lines_filled t o = within (blank_ahead t) (clean_lines-Within true t o)
  where
    within :
        (ahead : Bool)
        → Within ahead (split_lines (clean_lines true t)) (split_lines t)
        → filled_lines (clean_lines true t) ≡ filled_lines t
    within true (gone, blank, same) = rw (gone, blank) same
    within false same = filled-Same (split_lines (clean_lines true t)) (split_lines t) same

-- Along a text, of whose current line it is told whether it has more than blanks so far, whether it
-- has any character, and whether the line before is blank: a line with another one behind it has
-- more than blanks, or it is empty and the line before is not blank.
unfoldable pub is_tidy : (filled begun after_blank : Bool) → Text → Bool
is_tidy f b a [] = true
is_tidy f b a (c ∷ t) =
    let next_line = is_tidy false false (not f) t in
    let same_line = is_tidy (f || not (is_space c)) true a t in
    if c == b'\n' then (f || (not b && not a)) && next_line else same_line

is_tidy-newline :
    (f b a : Bool) (c : ℕ) (t : Text)
    → (c == b'\n') ≡ true
    → (f || (not b && not a)) ≡ true
    → is_tidy false false (not f) t ≡ true
    → is_tidy f b a (c ∷ t) ≡ true
unfolding is_tidy
is_tidy-newline f b a c t nl ok h = rw (nl, ok) h

is_tidy-other :
    (f b a : Bool) (c : ℕ) (t : Text)
    → (c == b'\n') ≡ false
    → is_tidy (f || not (is_space c)) true a t ≡ true
    → is_tidy f b a (c ∷ t) ≡ true
unfolding is_tidy
is_tidy-other f b a c t other h = rw other h

-- The cleaned text in a line with more than blanks, in one with blanks only and no newline among
-- the blanks ahead, and at the start of a line.
abbrev AreTidy : Text → Type 0
AreTidy t =
    ((a : Bool) → is_tidy true true a (clean_lines false t) ≡ true)
    × ((a : Bool) → blank_ahead t ≡ false → is_tidy false true a (clean_lines false t) ≡ true)
    × ((a : Bool)
        → (a && blank_ahead t) ≡ false
        → is_tidy false false a (clean_lines true t) ≡ true)

module _ (c : ℕ) (t : Text) (o : OnlyNewlines (c ∷ t)) (ih : AreTidy t) where
  kept_newline :
      (f b a : Bool)
      → (c == b'\n') ≡ true
      → (f || (not b && not a)) ≡ true
      → (not f && blank_ahead t) ≡ false
      → is_tidy f b a (c ∷ clean_lines (is_terminator c) t) ≡ true
  kept_newline f b a nl ok ahead =
      is_tidy-newline f b a c _ nl ok (rw (terminator_newline c t o ∙ nl) (ih.2 (not f) ahead))

  kept_other :
      (f b a : Bool)
      → (c == b'\n') ≡ false
      → (f ≡ false → is_space c ≡ true → blank_ahead t ≡ false)
      → is_tidy f b a (c ∷ clean_lines (is_terminator c) t) ≡ true
  kept_other true b a other ahead =
      is_tidy-other true b a c _ other (rw (terminator_newline c t o ∙ other) (ih.0 a))
  kept_other false b a other ahead = is_tidy-other false b a c _ other (
      rw (terminator_newline c t o ∙ other) (elim (Bool-cases (is_space c)) [
        | inl space ↦ rw space (ih.1 a (ahead refl space))
        | inr filled ↦ rw filled (ih.0 a)
      ]))

clean_lines-AreTidy : (t : Text) → OnlyNewlines t → AreTidy t
unfolding clean_lines is_tidy blank_ahead
clean_lines-AreTidy [] o = (λ a. refl, λ a h. refl, λ a h. refl)
clean_lines-AreTidy (c ∷ t) o =
    let ih = clean_lines-AreTidy t (OnlyNewlines-tail c t o) in
    (in_filled ih, in_blank ih, at_start ih)
  where
    in_filled : AreTidy t → (a : Bool) → is_tidy true true a (clean_lines false (c ∷ t)) ≡ true
    in_filled ih a = elim (Bool-cases (c == b'\n')) [
      | inl nl ↦ kept_newline c t o ih true true a nl refl refl
      | inr other ↦ kept_other c t o ih true true a other (λ e. absurd (cc e))
    ]

    in_blank :
        AreTidy t
        → (a : Bool) → blank_ahead (c ∷ t) ≡ false
        → is_tidy false true a (clean_lines false (c ∷ t)) ≡ true
    in_blank ih a h = elim (Bool-cases (c == b'\n')) [
      | inl nl ↦ absurd (cc (rw (newline_space c nl, nl) at h))
      | inr other ↦ kept_other c t o ih false true a other (λ _ space. rw (space, other) at h)
    ]

    at_start :
        AreTidy t
        → (a : Bool) → (a && blank_ahead (c ∷ t)) ≡ false
        → is_tidy false false a (clean_lines true (c ∷ t)) ≡ true
    at_start ih a h = elim (Bool-cases (is_space c && blank_ahead t)) [
      | inl drop ↦
          let (space, ahead) = &&_parts (is_space c) (blank_ahead t) drop in
          let before : (a && true) ≡ false = rw (space, ahead, or_true (c == b'\n')) at h in
          rw (space, ahead) (ih.2 a (rw ahead before))
      | inr keep ↦ rw keep (elim (Bool-cases (c == b'\n')) [
        | inl nl ↦
            let space = newline_space c nl in
            let first : (a && true) ≡ false = rw (space, nl) at h in
            kept_newline c t o ih false false a nl (ground (arith, first)) (rw space at keep)
        | inr other ↦ kept_other c t o ih false false a other (λ _ space. rw space at keep)
      ])
    ]

drop_newlines-is_tidy :
    (f b a : Bool) (t : Text) → is_tidy f b a t ≡ true → is_tidy f b a (drop_newlines t) ≡ true
unfolding drop_newlines is_tidy
drop_newlines-is_tidy f b a [] h = refl
drop_newlines-is_tidy f b a (c ∷ t) h = elim (Bool-cases (c == b'\n')) [
  | inl nl ↦
      let (ok, rest) = &&_parts (f || (not b && not a)) _ (rw nl at h) in
      rw nl (elim (Bool-cases (is_empty (drop_newlines t))) [
        | inl e ↦ rw e refl
        | inr e ↦ rw e (
            is_tidy-newline f b a c (drop_newlines t) nl ok
              (drop_newlines-is_tidy false false (not f) t rest))
      ])
  | inr other ↦ rw other (
      is_tidy-other f b a c (drop_newlines t) other
        (drop_newlines-is_tidy (f || not (is_space c)) true a t (rw other at h)))
]

-- The text of a listing without what its marked parts hold.
unfoldable mutual
  pub visible_text : Nodes → Text
  visible_text no_nodes = []
  visible_text (add n ns) = visible_node n ++ visible_text ns

  pub visible_node : Node → Text
  visible_node (text t) = t
  visible_node (element l t f ks) =
      let inner = visible_text ks in if l || (t || f) then [] else inner

text_content-remove_marked : (ns : Nodes) → text_content (remove_marked ns) ≡ visible_text ns
unfolding text_content remove_marked visible_text
text_content-remove_marked no_nodes = refl
text_content-remove_marked (add (text t) ns) = ap (t ++◌) (text_content-remove_marked ns)
text_content-remove_marked (add (element l t f ks) ns) =
    let rest = text_content-remove_marked ns in
    let inner = text_content-remove_marked ks in
    elim (Bool-cases (l || (t || f))) [
      | inl marked ↦ rw marked rest
      | inr kept ↦ rw (kept, inner, rest) refl
    ]

-- Where a newline is the only end of a line in what is seen of the listing, the copied text has those
-- of its lines that have more than blanks, in their order. Any other line of the copied text but the
-- last is empty and does not follow a line of blanks, and the text does not end in a newline.
pub copied_text-filled_lines :
    (ns : Nodes)
    → OnlyNewlines (visible_text ns)
    → (filled_lines (copied_text ns) ≡ filled_lines (visible_text ns))
      × (is_tidy false false false (copied_text ns) ≡ true)
      × (ends_in b'\n' (copied_text ns) ≡ false)
unfolding copied_text
copied_text-filled_lines ns o = rw (text_content-remove_marked ns) (
  filled_Same ∙ clean_lines_filled t o,
  drop_newlines-is_tidy false false false (clean_lines true t)
      ((clean_lines-AreTidy t o).2 false refl),
  ends_in-drop_newlines (clean_lines true t),
)
  where
    t : Text
    t = visible_text ns

    filled_Same :
        filled_lines (drop_newlines (clean_lines true t)) ≡ filled_lines (clean_lines true t)
    filled_Same =
        filled-Same (split_lines (drop_newlines (clean_lines true t)))
          (split_lines (clean_lines true t)) (drop_newlines-Same (clean_lines true t))
