-- ===== src/Outline/Groups/Rows.antt =====
-- docs/navtree.js, `initPageToc`: which rows of a group have an entry, and how deep the entries are.
use async_fw.Base.{
  ℕ, suc, ◌+◌, ◌*◌, ◌≤◌, ◌≡◌, refl, ap, Bool, true, false, Option, none, some, List, [], ◌∷◌, ◌++◌,
  map, if◌then◌else◌, arith, Bool-cases, append_assoc, ◌⊎◌, inl, inr,
}
use async_fw.Base.Text.{Text}
use async_fw.Outline.Groups.{
  Row, Cell, MemTitle, Group, Item, RowState, row_of, row_after, depth_for, puts, same_id, or_none,
  row_items, title_item, title_items, has_sub_items, group_start, group_items, groups_items,
}

abbrev item_ids : List Item → List Text
item_ids is = map (λ (i : Item). i.id) is

-- The ids of the rows that are visible and have one.
abbrev visible_id : Row → Option Text
visible_id r = if r.visible then r.id else none

abbrev put_id : Option Text → List Text → List Text
put_id none ts = ts
put_id (some t) ts = t ∷ ts

abbrev pub visible_ids : List Cell → List Text
visible_ids [] = []
visible_ids (c ∷ cs) = put_id (visible_id (row_of c)) (visible_ids cs)

-- A run of equal texts becomes one, and `last` is the text before.
unfoldable pub squeeze : Option Text → List Text → List Text
squeeze last [] = []
squeeze last (t ∷ ts) = if same_id last t then squeeze last ts else t ∷ squeeze (some t) ts

squeeze-put_id :
    (last o : Option Text) (visible : Bool) (ts : List Text)
    → squeeze last (put_id (if visible then o else none) ts)
      ≡ (if puts last visible o then or_none o ∷ squeeze (some (or_none o)) ts else squeeze last ts)
unfolding squeeze
squeeze-put_id last none true ts = refl
squeeze-put_id last none false ts = refl
squeeze-put_id last (some t) true ts = ground arith
squeeze-put_id last (some t) false ts = refl

-- From any state the rows that get an entry are, in their order, those that are visible and have an
-- id, without the rows that repeat the id of the one before.
pub row_items-visible_ids :
    (cs : List Cell) (s : RowState)
    → item_ids (row_items cs s).0 ≡ squeeze s.last_id (visible_ids cs)
unfolding row_items squeeze
row_items-visible_ids [] s = refl
row_items-visible_ids (c ∷ cs) s =
    let tr = row_of c in
    let id = or_none tr.id in
    let after = row_after id (depth_for tr.group_header s) tr.group_header s.in_member_group in
    elim (Bool-cases (puts s.last_id tr.visible tr.id)) [
      | inl p ↦
          rw (squeeze-put_id s.last_id tr.id tr.visible (visible_ids cs), p)
            (ap (id ∷◌) (row_items-visible_ids cs after))
      | inr p ↦
          rw (squeeze-put_id s.last_id tr.id tr.visible (visible_ids cs), p)
            (row_items-visible_ids cs s)
    ]

-- An entry stands at most one step below the one before it, and below it only if that has an arrow.
abbrev pub IsNested : ℕ → List Item → Type 0
IsNested limit [] = Unit
IsNested limit (i ∷ is) =
    (i.padding ≤ limit) × IsNested (i.padding + (if i.arrow then 16 else 0)) is

abbrev IsAt : RowState → Type 0
IsAt s = s.depth ≡ (if s.in_member_group then 2 else 1)

title_item-IsNested :
    (depth limit : ℕ) (o : Option Text) (text : Text) (rest : List Item)
    → depth * 16 ≤ limit
    → ((l : ℕ) → depth * 16 ≤ l → IsNested l rest)
    → IsNested limit (title_item o text depth ++ rest)
title_item-IsNested depth limit none text rest le next = next limit le
title_item-IsNested depth limit (some href) text rest le next =
    (le, next (depth * 16 + 0) (omega arith))

row_after-IsAt :
    (id : Text) (h : Bool) (s : RowState)
    → IsAt s
    → IsAt (row_after id (depth_for h s) h s.in_member_group) × (depth_for h s * 16 ≤ s.depth * 16)
row_after-IsAt id true s at = elim (Bool-cases s.in_member_group) [
  | inl b ↦ ground arith
  | inr b ↦ ground arith
]
row_after-IsAt id false s at = (at, omega arith)

title_items-IsNested :
    (depth limit : ℕ) (ms : List MemTitle) (rest : List Item)
    → depth * 16 ≤ limit
    → ((l : ℕ) → IsNested l rest)
    → IsNested limit (title_items depth ms ++ rest)
unfolding title_items
title_items-IsNested depth limit [] rest le next = next limit
title_items-IsNested depth limit (m ∷ ms) rest le next =
    rw (append_assoc (title_item m.href m.text depth) (title_items depth ms) rest) (
      title_item-IsNested depth limit m.href m.text (title_items depth ms ++ rest) le
        (λ l k. title_items-IsNested depth l ms rest k next))

step_le : (h : Bool) (d : ℕ) → (if h then suc d else d) * 16 ≤ d * 16 + (if h then 16 else 0)
step_le true d = omega arith
step_le false d = omega arith

row_items-IsNested :
    (cs : List Cell) (s : RowState) (limit : ℕ) (rest : List Item)
    → IsAt s
    → s.depth * 16 ≤ limit
    → ((l : ℕ) → (row_items cs s).1.depth * 16 ≤ l → IsNested l rest)
    → IsNested limit ((row_items cs s).0 ++ rest)
unfolding row_items
row_items-IsNested [] s limit rest at le next = next limit le
row_items-IsNested (c ∷ cs) s limit rest at le next =
    let tr = row_of c in
    let depth = depth_for tr.group_header s in
    let after = row_after (or_none tr.id) depth tr.group_header s.in_member_group in
    let (at', le') = row_after-IsAt (or_none tr.id) tr.group_header s at in
    elim (Bool-cases (puts s.last_id tr.visible tr.id)) [
      | inl p ↦ rw p (
        omega (arith, le'),
        row_items-IsNested cs after (depth * 16 + (if tr.group_header then 16 else 0)) rest at'
            (step_le tr.group_header depth) (rw p at next),
      )
      | inr p ↦ rw p (row_items-IsNested cs s limit rest at le (rw p at next))
    ]

group_items-IsNested :
    (g : Group) (limit : ℕ) (rest : List Item)
    → ((l : ℕ) → IsNested l rest)
    → IsNested limit (group_items g ++ rest)
unfolding group_items
group_items-IsNested g limit rest next = (omega arith, shown (Bool-cases (has_sub_items g)))
  where
    rows : List Item × RowState
    rows = row_items g.header.rows group_start

    shown :
        (has_sub_items g ≡ true) ⊎ (has_sub_items g ≡ false)
        → IsNested (0 + (if has_sub_items g then 16 else 0)) (
            (if has_sub_items g then rows.0 ++ title_items rows.1.depth g.mem_titles else [])
            ++ rest)
    shown (inl b) =
        rw (b, append_assoc rows.0 (title_items rows.1.depth g.mem_titles) rest)
          (row_items-IsNested g.header.rows group_start 16 _ refl (omega arith)
            (λ l k. title_items-IsNested rows.1.depth l g.mem_titles rest k next))
    shown (inr b) = rw b (next 0)

-- Whatever the groups of a page are, an entry stands at most one step below the entry before it, and
-- below it only if that has an arrow.
pub groups_items-IsNested : (gs : List Group) (limit : ℕ) → IsNested limit (groups_items gs)
unfolding groups_items
groups_items-IsNested [] limit = tt
groups_items-IsNested (g ∷ gs) limit =
    group_items-IsNested g limit (groups_items gs) (groups_items-IsNested gs)
