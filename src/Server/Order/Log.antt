-- ===== src/Server/Order/Log.antt =====
-- The order of the rows of `events`, and what it says about a sequence number.
use syna.Prelude.{
  ℕ, suc, ◌≤◌, ◌<◌, ◌==◌, ◌≡◌, refl, Bool, true, false, ◌&&◌, List, [], ◌∷◌, map, arith, Bool-cases,
  inl, inr, All,
}
use syna.Table.{Unique, any, select, delete}
use syna.Server.Schema.{Db, EventRow, WorkspaceRow}
use syna.Server.Objects.{is_workspace}

-- every number is below the bound, and below those before it
abbrev pub Descends : ℕ → List EventRow → Type 0
Descends bound [] = Unit
Descends bound (e ∷ es) = (e.seq < bound) × Descends e.seq es

abbrev pub same_workspace : WorkspaceRow → WorkspaceRow → Bool
same_workspace r s = is_workspace r.workspace_id s

pub record IsOrdered (d : Db) : Type 0 where
  pub descending : Descends (suc d.last_event_seq) d.events
  pub workspaces_unique : Unique same_workspace d.workspaces

pub Descends-mono : (a b : ℕ) (es : List EventRow) → a ≤ b → Descends a es → Descends b es
Descends-mono a b [] h u = tt
Descends-mono a b (e ∷ es) h u = (omega arith, u.1)

pub Descends-delete :
    (bound : ℕ) (q : EventRow → Bool) (es : List EventRow)
    → Descends bound es
    → Descends bound (delete q es)
unfolding delete
Descends-delete bound q [] u = tt
Descends-delete bound q (e ∷ es) u = elim (Bool-cases (q e)) [
  | inl gone ↦
      rw gone
        (Descends-mono e.seq bound (delete q es) (omega arith) (Descends-delete e.seq q es u.1))
  | inr stays ↦ rw stays (u.0, Descends-delete e.seq q es u.1)
]

-- a row with the number that passes the test
abbrev pub has_seq : (EventRow → Bool) → ℕ → EventRow → Bool
has_seq p seq e = p e && e.seq == seq

-- no row at or above the bound
any-has_seq_above :
    (p : EventRow → Bool) (seq bound : ℕ) (es : List EventRow)
    → Descends bound es
    → bound ≤ seq
    → any (has_seq p seq) es ≡ false
unfolding any
any-has_seq_above p seq bound [] u h = refl
any-has_seq_above p seq bound (e ∷ es) u h = ground (arith, any-has_seq_above p seq e.seq es u.1)

-- A number stands in one row: tests that exclude one another do not both find it.
pub seq_unique :
    (p q : EventRow → Bool)
    → ((e : EventRow) → p e ≡ true → q e ≡ false)
    → (seq bound : ℕ) (es : List EventRow) → Descends bound es
    → any (has_seq q seq) es ≡ true
    → any (has_seq p seq) es ≡ false
unfolding any
seq_unique p q apart seq bound [] u h = refl
seq_unique p q apart seq bound (e ∷ es) u h = elim (Bool-cases (e.seq == seq)) [
  | inl here ↦ ground (
    arith,
    here,
    apart e,
    any-has_seq_above p seq e.seq es u.1,
    any-has_seq_above q seq e.seq es u.1,
  )
  | inr elsewhere ↦ ground (arith, elsewhere, seq_unique p q apart seq e.seq es u.1)
]

-- What a selected row's number finds.
pub select_seqs :
    (p q : EventRow → Bool)
    → ((e : EventRow) → p e ≡ true → q e ≡ false)
    → (bound : ℕ) (rows es : List EventRow) → Descends bound es
    → ((r : EventRow → Bool) → any r rows ≡ true → any r es ≡ true)
    → All (λ seq. any (has_seq p seq) es ≡ false) (map (λ e. e.seq) (select q rows))
unfolding any select
select_seqs p q apart bound [] es u within = tt
select_seqs p q apart bound (e ∷ rows) es u within =
    let rest = select_seqs p q apart bound rows es u (λ r h. within r (ground (arith, h))) in
    elim (Bool-cases (q e)) [
      | inl hit ↦ rw hit (
        seq_unique p q apart e.seq bound es u (within (has_seq q e.seq) (ground (arith, hit))),
        rest,
      )
      | inr miss ↦ rw miss rest
    ]
