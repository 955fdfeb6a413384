-- ===== src/CodeFold/Run.antt =====
-- docs/dynsections.js, `codefold`: what every run of clicks keeps.
use async_fw.Base.{
  ◌≡◌, refl, ap, Bool, true, false, not, List, [], ◌∷◌, map, All, Bool-cases, inl, inr,
}
use async_fw.Base.Text.{Text, text_eq}
use async_fw.CodeFold.{
  Part, Fold, CodeFolds, init, init_fold, fold_shut, fold_open, toggle_all, toggle_fold, toggle,
  Click, on_all, on_fold, run,
}

-- A part shows exactly one of its two forms, and the folded form only with a `plus`.
abbrev pub ShowsOne : Fold → Type 0
ShowsOne f = (f.open_shown ≡ not f.closed_shown) × (f.closed_shown ≡ true → f.closed_plus ≡ true)

pub record IsValid (c : CodeFolds) : Type 0 where
  pub sign : c.all_plus ≡ not c.opened
  pub folds_one : All ShowsOne c.folds

module _ {ℓ} {A : Type ℓ} where
  All-map :
      (P : A → Type 0) (f : A → A) (xs : List A)
      → ((x : A) → P x → P (f x))
      → All P xs
      → All P (map f xs)
  All-map P f [] keep h = tt
  All-map P f (x ∷ xs) keep h = (keep x h.0, All-map P f xs keep h.1)

toggle_fold-ShowsOne : (id : Text) (f : Fold) → ShowsOne f → ShowsOne (toggle_fold id f)
unfolding toggle_fold
toggle_fold-ShowsOne id f h = elim (Bool-cases (text_eq f.id id)) [
  | inl b ↦ rw b (ap not h.0, λ s. refl)
  | inr b ↦ rw b h
]

fold_shut-ShowsOne : (f : Fold) → ShowsOne f → ShowsOne (fold_shut f)
unfolding fold_shut
fold_shut-ShowsOne f h = (refl, λ s. refl)

fold_open-ShowsOne : (f : Fold) → ShowsOne f → ShowsOne (fold_open f)
unfolding fold_open
fold_open-ShowsOne f h = (refl, λ s. cc)

toggle-IsValid : (id : Text) {c : CodeFolds} → IsValid c → IsValid (toggle id c)
unfolding toggle
toggle-IsValid id {c} v = record {
  sign = v.sign;
  folds_one = All-map ShowsOne (toggle_fold id) c.folds (toggle_fold-ShowsOne id) v.folds_one;
}

toggle_all-IsValid : {c : CodeFolds} → IsValid c → IsValid (toggle_all c)
unfolding toggle_all
toggle_all-IsValid {c} v = elim (Bool-cases c.opened) [
  | inl b ↦ rw b record {
    sign = refl;
    folds_one = All-map ShowsOne fold_shut c.folds fold_shut-ShowsOne v.folds_one;
  }
  | inr b ↦ rw b record {
    sign = refl;
    folds_one = All-map ShowsOne fold_open c.folds fold_open-ShowsOne v.folds_one;
  }
]

init_folds : (parts : List Part) → All ShowsOne (map init_fold parts)
unfolding init_fold
init_folds [] = tt
init_folds (p ∷ ps) = ((refl, λ s. cc), init_folds ps)

init-IsValid : (parts : List Part) → IsValid (init parts)
unfolding init
init-IsValid parts = record { sign = refl; folds_one = init_folds parts }

run-keeps_IsValid : (es : List Click) {c : CodeFolds} → IsValid c → IsValid (run es c)
unfolding run
run-keeps_IsValid [] v = v
run-keeps_IsValid (on_all ∷ es) v = run-keeps_IsValid es (toggle_all-IsValid v)
run-keeps_IsValid (on_fold id ∷ es) v = run-keeps_IsValid es (toggle-IsValid id v)

-- Whatever is clicked, once `init` has run on any parts: the class of `fold_all` is `plus` just when
-- `opened` is false, and each part shows exactly one of its two forms, the folded one only with a
-- mark that is `plus`.
pub run-init-IsValid : (parts : List Part) (es : List Click) → IsValid (run es (init parts))
run-init-IsValid parts es = run-keeps_IsValid es (init-IsValid parts)

abbrev pub Shows : Bool → Fold → Type 0
Shows b f = (f.open_shown ≡ b) × (f.closed_shown ≡ not b)

All-fold_shut : (fs : List Fold) → All (Shows false) (map fold_shut fs)
unfolding fold_shut
All-fold_shut [] = tt
All-fold_shut (f ∷ fs) = ((refl, refl), All-fold_shut fs)

All-fold_open : (fs : List Fold) → All (Shows true) (map fold_open fs)
unfolding fold_open
All-fold_open [] = tt
All-fold_open (f ∷ fs) = ((refl, refl), All-fold_open fs)

-- A click on `fold_all` shows the folded form of every part, and it alone, if `opened` holds, and the
-- open form otherwise, whatever each part showed before.
pub toggle_all-Shows : (c : CodeFolds) → All (Shows (not c.opened)) (toggle_all c).folds
unfolding toggle_all
toggle_all-Shows c = elim (Bool-cases c.opened) [
  | inl b ↦ rw b (All-fold_shut c.folds)
  | inr b ↦ rw b (All-fold_open c.folds)
]
