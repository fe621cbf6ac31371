-- ===== src/Table/Overwrite.antt =====
-- An upsert that sets every column: the row that a key finds afterwards.
use syna.Prelude.{◌≡◌, refl, Bool, true, false, some, List, [], ◌∷◌, arith, Bool-cases, inl, inr}
use syna.Table.Defs.{find, any, update, upsert}

module _ {ℓ} {A : Type ℓ} (p : A → Bool) (row : A) where
  find-overwrite_own :
      p row ≡ true → (rs : List A) → any p rs ≡ true → find p (update p (λ r. row) rs) ≡ some row
  unfolding find any update
  find-overwrite_own own [] h = cc
  find-overwrite_own own (r ∷ rs) h = elim (Bool-cases (p r)) [
    | inl here ↦ rw here (rw own refl)
    | inr not_here ↦
        rw not_here (rw not_here (find-overwrite_own own rs (ground (arith, not_here))))
  ]

  pub find-upsert_own :
      p row ≡ true → (rs : List A) → find p (upsert p (λ r. row) row rs) ≡ some row
  unfolding upsert find
  find-upsert_own own rs = elim (Bool-cases (any p rs)) [
    | inl here ↦ rw here (find-overwrite_own own rs here)
    | inr fresh ↦ rw fresh (rw own refl)
  ]

  module _ (q : A → Bool) (other : q row ≡ false) (apart : (r : A) → p r ≡ true → q r ≡ false) where
    find-overwrite_apart : (rs : List A) → find q (update p (λ r. row) rs) ≡ find q rs
    unfolding find update
    find-overwrite_apart [] = refl
    find-overwrite_apart (r ∷ rs) = elim (Bool-cases (p r)) [
      | inl here ↦ rw here (rw other (rw (apart r here) (find-overwrite_apart rs)))
      | inr not_here ↦ rw not_here (ground (arith, find-overwrite_apart rs))
    ]

    pub find-upsert_apart : (rs : List A) → find q (upsert p (λ r. row) row rs) ≡ find q rs
    unfolding upsert find
    find-upsert_apart rs = elim (Bool-cases (any p rs)) [
      | inl here ↦ rw here (find-overwrite_apart rs)
      | inr fresh ↦ rw fresh (rw other refl)
    ]
