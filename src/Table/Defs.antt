-- ===== src/Table/Defs.antt =====
-- The statements: SELECT, EXISTS, COUNT, INSERT, UPDATE and DELETE over a list of rows.
use syna.Prelude.{ℕ, ◌+◌, Bool, false, ◌||◌, Option, none, some, List, [], ◌∷◌, if◌then◌else◌}

module _ {ℓ} {A : Type ℓ} where
  -- SELECT … WHERE p, all rows
  unfoldable pub select : (A → Bool) → List A → List A
  select p [] = []
  select p (r ∷ rs) = let rest = select p rs in if p r then r ∷ rest else rest

  -- SELECT … WHERE p, the row that a scan of a unique key returns
  unfoldable pub find : (A → Bool) → List A → Option A
  find p [] = none
  find p (r ∷ rs) = let rest = find p rs in if p r then some r else rest

  -- EXISTS (SELECT 1 … WHERE p)
  unfoldable pub any : (A → Bool) → List A → Bool
  any p [] = false
  any p (r ∷ rs) = p r || any p rs

  -- SELECT COUNT(*) … WHERE p
  unfoldable pub count : (A → Bool) → List A → ℕ
  count p [] = 0
  count p (r ∷ rs) = (if p r then 1 else 0) + count p rs

  -- UPDATE … SET f WHERE p
  unfoldable pub update : (A → Bool) → (A → A) → List A → List A
  update p f [] = []
  update p f (r ∷ rs) = (if p r then f r else r) ∷ update p f rs

  -- DELETE … WHERE p
  unfoldable pub delete : (A → Bool) → List A → List A
  delete p [] = []
  delete p (r ∷ rs) = let rest = delete p rs in if p r then rest else r ∷ rest

  -- INSERT … ON CONFLICT (p) DO UPDATE SET f; a new row is stored first
  unfoldable pub upsert : (A → Bool) → (A → A) → A → List A → List A
  upsert p f row rs = if any p rs then update p f rs else row ∷ rs

  -- INSERT OR IGNORE, with the key test p
  unfoldable pub insert_or_ignore : (A → Bool) → A → List A → List A
  insert_or_ignore p row rs = if any p rs then rs else row ∷ rs

  -- INSERT OR REPLACE, with the key test p
  unfoldable pub insert_or_replace : (A → Bool) → A → List A → List A
  insert_or_replace p row rs = row ∷ delete p rs
