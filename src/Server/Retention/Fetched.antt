-- ===== src/Server/Retention/Fetched.antt =====
-- The same window is fetched as the same page.
use syna.Prelude.{
  ℕ, String, ◌≡◌, Bool, true, List, [], ◌∷◌, map, arith, leb, Bool-cases, inl, inr, All, All-take,
  map_congr,
}
use syna.Table.{any, select}
use syna.Server.Schema.{Db, EventRow}
use syna.Server.Events.{in_window, record_of, fetched_rows, sort_by_seq, insert_by_seq}
use syna.Server.Order.{has_seq}
use syna.Server.Retention.Window.{SameWindow}

module _ (P : EventRow → Type 0) where
  All-insert_by_seq :
      (e : EventRow) (es : List EventRow) → P e → All P es → All P (insert_by_seq e es)
  unfolding insert_by_seq
  All-insert_by_seq e [] p h = (p, tt)
  All-insert_by_seq e (f ∷ fs) p h = elim (Bool-cases (leb e.seq f.seq)) [
    | inl before ↦ rw before (p, h)
    | inr later ↦ rw later (h.0, All-insert_by_seq e fs p h.1)
  ]

  pub All-sort_by_seq : (es : List EventRow) → All P es → All P (sort_by_seq es)
  unfolding sort_by_seq
  All-sort_by_seq [] h = tt
  All-sort_by_seq (e ∷ es) h = All-insert_by_seq e (sort_by_seq es) h.0 (All-sort_by_seq es h.1)

-- a number that a row of the window has
abbrev IsSeen : String → ℕ → ℕ → List EventRow → ℕ → Type 0
IsSeen w after current es seq = any (has_seq (in_window w after current) seq) es ≡ true

All-IsSeen :
    (w : String) (after current : ℕ) (rows es : List EventRow)
    → ((p : EventRow → Bool) → any p rows ≡ true → any p es ≡ true)
    → All (λ e. IsSeen w after current es e.seq) (select (in_window w after current) rows)
unfolding any select
All-IsSeen w after current [] es within = tt
All-IsSeen w after current (e ∷ rows) es within =
    let rest = All-IsSeen w after current rows es (λ p h. within p (ground (arith, h))) in
    elim (Bool-cases (in_window w after current e)) [
      | inl hit ↦
          rw hit (within (has_seq (in_window w after current) e.seq) (ground (arith, hit)), rest)
      | inr miss ↦ rw miss rest
    ]

-- The same window is fetched as the same records.
pub SameWindow-fetched :
    (w : String) (after current limit : ℕ) (a b : Db)
    → SameWindow w after current a b
    → map (record_of b) (fetched_rows w after current limit b)
      ≡ map (record_of a) (fetched_rows w after current limit a)
unfolding fetched_rows record_of
SameWindow-fetched w after current limit a b s = rw s.rows (
    map_congr (λ e. IsSeen w after current a.events e.seq) (record_of b) (record_of a)
      (λ e h. cc (s.refs e.seq h)) _
      (All-take _ limit _
        (All-sort_by_seq _ _ (All-IsSeen w after current a.events a.events (λ p h. h)))))
