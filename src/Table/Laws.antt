-- ===== src/Table/Laws.antt =====
-- How the statements act on one another.
use mathlib.Core.Option
use syna.Prelude.{
  map, ◌&&◌, ◌+◌, ◌≤◌, ◌≡◌, refl, Bool, true, false, none, some, List, [], ◌∷◌, arith,
  if◌then◌else◌, Bool-cases, inl, inr, is_some,
}
use syna.Table.Defs.{select, find, any, count, update, delete, insert_or_ignore}

module _ {ℓ} {A : Type ℓ} where
  pub count-delete-le : (p q : A → Bool) (rs : List A) → count p (delete q rs) ≤ count p rs
  unfolding count delete
  count-delete-le p q [] = omega arith
  count-delete-le p q (r ∷ rs) = ground (arith, count-delete-le p q rs)

  -- the counted rows are those that stay and those that go
  pub count-delete_split :
      (p q : A → Bool) (rs : List A) → count p rs ≡ count p (delete q rs) + count p (select q rs)
  unfolding count delete select
  count-delete_split p q [] = omega arith
  count-delete_split p q (r ∷ rs) = ground (arith, count-delete_split p q rs)

  pub count-delete_apart :
      (p q : A → Bool)
      → ((r : A) → p r ≡ true → q r ≡ false)
      → (rs : List A) → count p (delete q rs) ≡ count p rs
  unfolding count delete
  count-delete_apart p q apart [] = refl
  count-delete_apart p q apart (r ∷ rs) = ground (arith, apart r, count-delete_apart p q apart rs)

  pub any-delete_apart :
      (p q : A → Bool)
      → ((r : A) → p r ≡ true → q r ≡ false)
      → (rs : List A) → any p (delete q rs) ≡ any p rs
  unfolding any delete
  any-delete_apart p q apart [] = refl
  any-delete_apart p q apart (r ∷ rs) = ground (arith, apart r, any-delete_apart p q apart rs)

  pub find-delete_apart :
      (p q : A → Bool)
      → ((r : A) → p r ≡ true → q r ≡ false)
      → (rs : List A) → find p (delete q rs) ≡ find p rs
  unfolding find delete
  find-delete_apart p q apart [] = refl
  find-delete_apart p q apart (r ∷ rs) = ground (arith, apart r, find-delete_apart p q apart rs)

  pub select-delete_apart :
      (p q : A → Bool)
      → ((r : A) → p r ≡ true → q r ≡ false)
      → (rs : List A) → select p (delete q rs) ≡ select p rs
  unfolding select delete
  select-delete_apart p q apart [] = refl
  select-delete_apart p q apart (r ∷ rs) = ground (arith, apart r, select-delete_apart p q apart rs)

  pub any-delete→any : (p q : A → Bool) (rs : List A) → any p (delete q rs) ≡ true → any p rs ≡ true
  unfolding any delete
  any-delete→any p q [] h = h
  any-delete→any p q (r ∷ rs) h = ground (arith, any-delete→any p q rs)

  pub find-delete_self :
      (p q : A → Bool)
      → ((r : A) → p r ≡ true → q r ≡ true)
      → (rs : List A) → find p (delete q rs) ≡ none
  unfolding find delete
  find-delete_self p q within [] = refl
  find-delete_self p q within (r ∷ rs) = ground (arith, within r, find-delete_self p q within rs)

  pub any-delete_self :
      (p q : A → Bool)
      → ((r : A) → p r ≡ true → q r ≡ true)
      → (rs : List A) → any p (delete q rs) ≡ false
  unfolding any delete
  any-delete_self p q within [] = refl
  any-delete_self p q within (r ∷ rs) = ground (arith, within r, any-delete_self p q within rs)

  pub any-find : (p : A → Bool) (rs : List A) → any p rs ≡ is_some (find p rs)
  unfolding any find
  any-find p [] = refl
  any-find p (r ∷ rs) = ground (arith, any-find p rs)

  -- the row that is found passes the test
  pub find_sound : (p : A → Bool) (rs : List A) {a : A} → find p rs ≡ some a → p a ≡ true
  unfolding find
  find_sound p [] h = cc
  find_sound p (r ∷ rs) {a} h = elim (Bool-cases (p r)) [
    | inl yes_r ↦ ground (arith, yes_r)
    | inr no_r ↦ find_sound p rs (ground (arith, no_r))
  ]

  pub count-insert_or_ignore-le :
      (p q : A → Bool) (row : A) (rs : List A)
      → count p (insert_or_ignore q row rs) ≤ count p rs + (if p row then 1 else 0)
  unfolding count insert_or_ignore
  count-insert_or_ignore-le p q row rs = ground arith

-- An update that keeps what a test reads.
module _ {ℓ} {A : Type ℓ} (q : A → Bool) (f : A → A) (keep : (r : A) → q (f r) ≡ q r) where
  pub find-update :
      (p : A → Bool) (rs : List A)
      → find q (update p f rs) ≡ Option.map (λ r. if p r then f r else r) (find q rs)
  unfolding find update
  find-update p [] = refl
  find-update p (r ∷ rs) = ground (arith, keep r, find-update p rs)

  pub any-update : (p : A → Bool) (rs : List A) → any q (update p f rs) ≡ any q rs
  unfolding any update
  any-update p [] = refl
  any-update p (r ∷ rs) = ground (arith, keep r, any-update p rs)

  pub count-update : (p : A → Bool) (rs : List A) → count q (update p f rs) ≡ count q rs
  unfolding count update
  count-update p [] = refl
  count-update p (r ∷ rs) = ground (arith, keep r, count-update p rs)

module _ {ℓ κ} {A : Type ℓ} {B : Type κ} where
  pub count-map :
      (p : B → Bool) (f : A → B) (rs : List A) → count p (map f rs) ≡ count (λ r. p (f r)) rs
  unfolding count
  count-map p f [] = refl
  count-map p f (r ∷ rs) = ground (arith, count-map p f rs)

module _ {ℓ} {A : Type ℓ} where
  pub count_zero : (p : A → Bool) (rs : List A) → any p rs ≡ false → count p rs ≡ 0
  unfolding any count
  count_zero p [] h = refl
  count_zero p (r ∷ rs) h = ground (arith, count_zero p rs)

-- A change of every row that keeps what a test reads.
module _ {ℓ} {A : Type ℓ} (q : A → Bool) (f : A → A) (keep : (r : A) → q (f r) ≡ q r) where
  pub find-map : (rs : List A) → find q (map f rs) ≡ Option.map f (find q rs)
  unfolding find
  find-map [] = refl
  find-map (r ∷ rs) = ground (arith, keep r, find-map rs)

  pub any-map : (rs : List A) → any q (map f rs) ≡ any q rs
  unfolding any
  any-map [] = refl
  any-map (r ∷ rs) = ground (arith, keep r, any-map rs)

module _ {ℓ} {A : Type ℓ} where
  pub any_mono :
      (p q : A → Bool)
      → ((r : A) → q r ≡ true → p r ≡ true)
      → (rs : List A) → any p rs ≡ false
      → any q rs ≡ false
  unfolding any
  any_mono p q within [] h = refl
  any_mono p q within (r ∷ rs) h = ground (arith, within r, any_mono p q within rs)

  pub select-delete_none :
      (p q : A → Bool) (rs : List A)
      → any (λ r. p r && q r) rs ≡ false
      → select p (delete q rs) ≡ select p rs
  unfolding any select delete
  select-delete_none p q [] h = refl
  select-delete_none p q (r ∷ rs) h = ground (arith, select-delete_none p q rs)
