-- ===== src/Server/Paging.antt =====
-- Pages of events (`FetchEvents` of internal/server/db/events.go): a page is in order and leaves no
-- gap.
use syna.Prelude.{
  ℕ, zero, suc, ◌≤◌, String, ◌==◌, ◌≡◌, refl, ◌∙◌, ap, Bool, true, ◌||◌, ◌⊎◌, List, [], ◌∷◌, arith,
  leb, Bool-cases, inl, inr, All, take, length, length-take-le,
}
use syna.Table.{any, select}
use syna.Server.Schema.{Db, EventRow}
use syna.Server.Events.{in_window, fetched_rows, sort_by_seq, insert_by_seq}
use syna.Server.Order.{has_seq}

-- a row with the number
abbrev pub holds : ℕ → List EventRow → Bool
holds seq es = any (λ e. e.seq == seq) es

-- ascending, each number at or above the bound
abbrev pub Ascends : ℕ → List EventRow → Type 0
Ascends bound [] = Unit
Ascends bound (e ∷ es) = (bound ≤ e.seq) × Ascends e.seq es

Ascends-mono : (a b : ℕ) (es : List EventRow) → a ≤ b → Ascends b es → Ascends a es
Ascends-mono a b [] h u = tt
Ascends-mono a b (e ∷ es) h u = (omega (arith, u.0), u.1)

Ascends-insert :
    (bound : ℕ) (e : EventRow) (es : List EventRow)
    → bound ≤ e.seq
    → Ascends bound es
    → Ascends bound (insert_by_seq e es)
unfolding insert_by_seq
Ascends-insert bound e [] h u = (h, tt)
Ascends-insert bound e (f ∷ fs) h u = elim (Bool-cases (leb e.seq f.seq)) [
  | inl before ↦ rw before (h, (ground (arith, before), u.1))
  | inr later ↦ rw later (u.0, Ascends-insert f.seq e fs (ground (arith, later)) u.1)
]

Ascends-sort : (es : List EventRow) → Ascends 0 (sort_by_seq es)
unfolding sort_by_seq
Ascends-sort [] = tt
Ascends-sort (e ∷ es) = Ascends-insert 0 e (sort_by_seq es) (omega arith) (Ascends-sort es)

Ascends-take : (bound n : ℕ) (es : List EventRow) → Ascends bound es → Ascends bound (take n es)
Ascends-take bound zero es u = tt
Ascends-take bound (suc n) [] u = tt
Ascends-take bound (suc n) (e ∷ es) u = (u.0, Ascends-take e.seq n es u.1)

holds-insert :
    (seq : ℕ) (e : EventRow) (es : List EventRow)
    → holds seq (insert_by_seq e es) ≡ ((e.seq == seq) || holds seq es)
unfolding insert_by_seq any
holds-insert seq e [] = refl
holds-insert seq e (f ∷ fs) = ground (arith, holds-insert seq e fs)

holds-sort : (seq : ℕ) (es : List EventRow) → holds seq (sort_by_seq es) ≡ holds seq es
unfolding sort_by_seq any
holds-sort seq [] = refl
holds-sort seq (e ∷ es) = ground (arith, holds-insert seq e (sort_by_seq es), holds-sort seq es)

holds-select :
    (p : EventRow → Bool) (seq : ℕ) (es : List EventRow)
    → holds seq (select p es) ≡ any (has_seq p seq) es
unfolding select any
holds-select p seq [] = refl
holds-select p seq (e ∷ es) = ground (arith, holds-select p seq es)

-- Of an ascending list, what a prefix lacks is at or above all of it, and the prefix is full.
abbrev pub IsPrefixUpTo : ℕ → ℕ → List EventRow → Type 0
IsPrefixUpTo limit seq page =
    (holds seq page ≡ true) ⊎ ((length page ≡ limit) × All (λ e. e.seq ≤ seq) page)

-- all numbers of an ascending list are at or above its bound
holds_above :
    (bound seq : ℕ) (es : List EventRow) → Ascends bound es → holds seq es ≡ true → bound ≤ seq
unfolding any
holds_above bound seq [] u h = cc
holds_above bound seq (e ∷ es) u h = ground (arith, holds_above e.seq seq es u.1)

take_covers :
    (bound limit seq : ℕ) (es : List EventRow)
    → Ascends bound es
    → holds seq es ≡ true
    → IsPrefixUpTo limit seq (take limit es)
unfolding any
take_covers bound zero seq es u h = inr (refl, tt)
take_covers bound (suc limit) seq [] u h = cc
take_covers bound (suc limit) seq (e ∷ es) u h = elim (Bool-cases (e.seq == seq)) [
  | inl here ↦ inl (ground (arith, here))
  | inr elsewhere ↦
      let below = holds_above bound seq (e ∷ es) u h in
      let later : holds seq es ≡ true = ground (arith, elsewhere) in
      elim (take_covers e.seq limit seq es u.1 later) [
        | inl found ↦ inl (ground (arith, elsewhere, found))
        | inr (full, lower) ↦ inr (ap suc full, (holds_above e.seq seq es u.1 later, lower))
      ]
]

-- A page holds at most `limit` rows, in ascending order; and every event of the workspace between
-- the cursor and the head is in it, unless the page is full and has no later event.
pub fetched_rows_lem :
    (w : String) (after current limit seq : ℕ) (d : Db)
    → any (has_seq (in_window w after current) seq) d.events ≡ true
    → (length (fetched_rows w after current limit d) ≤ limit)
      × Ascends 0 (fetched_rows w after current limit d)
      × IsPrefixUpTo limit seq (fetched_rows w after current limit d)
unfolding fetched_rows
fetched_rows_lem w after current limit seq d h =
    let rows = select (in_window w after current) d.events in
    (
      length-take-le limit (sort_by_seq rows),
      Ascends-take 0 limit (sort_by_seq rows) (Ascends-sort rows),
      take_covers 0 limit seq (sort_by_seq rows) (Ascends-sort rows)
          (holds-sort seq rows ∙ holds-select (in_window w after current) seq d.events ∙ h),
    )
