-- ===== src/Table/Keys.antt =====
-- Tables with a primary key: no row has the key of another.
use syna.Prelude.{
  map, ◌≤◌, ◌≡◌, refl, ◌∙◌, Bool, true, false, List, [], ◌∷◌, arith, Bool-cases, inl, inr,
}
use syna.Table.Defs.{select, any, count, update, delete}

-- `same r s` tells whether `s` has the key of `r`.
abbrev pub Unique {ℓ} : {A : Type ℓ} → (A → A → Bool) → List A → Type 0
Unique same [] = Unit
Unique same (r ∷ rs) = (any (same r) rs ≡ false) × Unique same rs

module _ {ℓ} {A : Type ℓ} where
  pub any-delete-false :
      (p q : A → Bool) (rs : List A) → any p rs ≡ false → any p (delete q rs) ≡ false
  unfolding any delete
  any-delete-false p q [] h = h
  any-delete-false p q (r ∷ rs) h = ground (arith, any-delete-false p q rs)

  pub any-select-false :
      (p q : A → Bool) (rs : List A) → any p rs ≡ false → any p (select q rs) ≡ false
  unfolding any select
  any-select-false p q [] h = h
  any-select-false p q (r ∷ rs) h = ground (arith, any-select-false p q rs)

  -- What a selected row passes is passed by a row of the table.
  pub any-select→any : (p q : A → Bool) (rs : List A) → any p (select q rs) ≡ true → any p rs ≡ true
  unfolding any select
  any-select→any p q [] h = h
  any-select→any p q (r ∷ rs) h = ground (arith, any-select→any p q rs)

  pub count_pos_of_any :
      (p q : A → Bool)
      → ((r : A) → q r ≡ true → p r ≡ true)
      → (rs : List A) → any q rs ≡ true
      → 1 ≤ count p (select q rs)
  unfolding any select count
  count_pos_of_any p q within [] h = cc
  count_pos_of_any p q within (r ∷ rs) h = ground (arith, within r, count_pos_of_any p q within rs)

module _ {ℓ} {A : Type ℓ} (same : A → A → Bool) where
  pub Unique-delete : (q : A → Bool) (rs : List A) → Unique same rs → Unique same (delete q rs)
  unfolding delete
  Unique-delete q [] u = u
  Unique-delete q (r ∷ rs) u = elim (Bool-cases (q r)) [
    | inl gone ↦ rw gone (Unique-delete q rs u.1)
    | inr stays ↦ rw stays (any-delete-false (same r) q rs u.0, Unique-delete q rs u.1)
  ]

  pub Unique-select : (q : A → Bool) (rs : List A) → Unique same rs → Unique same (select q rs)
  unfolding select
  Unique-select q [] u = u
  Unique-select q (r ∷ rs) u = elim (Bool-cases (q r)) [
    | inl stays ↦ rw stays (any-select-false (same r) q rs u.0, Unique-select q rs u.1)
    | inr gone ↦ rw gone (Unique-select q rs u.1)
  ]

  module _ (f : A → A) (left : (r s : A) → same (f r) s ≡ same r s)
      (right : (r s : A) → same r (f s) ≡ same r s) where
    any-same-update :
        (p : A → Bool) (r : A) (rs : List A) → any (same r) (update p f rs) ≡ any (same r) rs
    unfolding any update
    any-same-update p r [] = refl
    any-same-update p r (s ∷ rs) = ground (arith, right r s, any-same-update p r rs)

    any-same_left : (r : A) (rs : List A) → any (same (f r)) rs ≡ any (same r) rs
    unfolding any
    any-same_left r [] = refl
    any-same_left r (s ∷ rs) = ground (arith, left r s, any-same_left r rs)

    pub Unique-update : (p : A → Bool) (rs : List A) → Unique same rs → Unique same (update p f rs)
    unfolding update
    Unique-update p [] u = u
    Unique-update p (r ∷ rs) u = elim (Bool-cases (p r)) [
      | inl hit ↦ rw hit (any-same_left r _ ∙ any-same-update p r rs ∙ u.0, Unique-update p rs u.1)
      | inr miss ↦ rw miss (any-same-update p r rs ∙ u.0, Unique-update p rs u.1)
    ]

module _ {ℓ} {A : Type ℓ} (same : A → A → Bool) (f : A → A)
    (left : (r s : A) → same (f r) s ≡ same r s) (right : (r s : A) → same r (f s) ≡ same r s) where
  any-same-map : (r : A) (rs : List A) → any (same (f r)) (map f rs) ≡ any (same r) rs
  unfolding any
  any-same-map r [] = refl
  any-same-map r (s ∷ rs) = ground (arith, left r (f s), right r s, any-same-map r rs)

  pub Unique-map : (rs : List A) → Unique same rs → Unique same (map f rs)
  Unique-map [] u = u
  Unique-map (r ∷ rs) u = (any-same-map r rs ∙ u.0, Unique-map rs u.1)
