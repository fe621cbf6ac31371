-- ===== src/Server/Retention/Window.antt =====
-- What `FetchEvents` reads (internal/server/db/events.go), and how one deletion of an event leaves
-- it.
use syna.Prelude.{ℕ, String, ◌==◌, ◌≡◌, refl, sym, ◌∙◌, ap, true, false, List, [], ◌∷◌, arith}
use syna.Table.{any, select}
use syna.Server.Schema.{Db, EventRow}
use syna.Server.Events.{in_window, event_refs}
use syna.Server.Order.{has_seq}

module _ (w : String) (after current : ℕ) where
  -- the rows of the window
  abbrev pub window : Db → List EventRow
  window d = select (in_window w after current) d.events

  -- No row of the window has the number.
  abbrev pub Outside : Db → ℕ → Type 0
  Outside d seq = any (has_seq (in_window w after current) seq) d.events ≡ false

  -- The second database shows the window of the first, and its rows with the same references.
  pub record SameWindow (a b : Db) : Type 0 where
    pub rows : window b ≡ window a
    pub refs :
        (seq : ℕ)
        → any (has_seq (in_window w after current) seq) a.events ≡ true
        → event_refs seq b ≡ event_refs seq a

  pub SameWindow-refl : (d : Db) → SameWindow d d
  SameWindow-refl d = record { rows = refl; refs = λ seq h. refl }

  -- A row of the window is a row of whatever has the same window.
  any-window :
      (seq : ℕ) (es : List EventRow)
      → any (has_seq (in_window w after current) seq) es
        ≡ any (λ e. e.seq == seq) (select (in_window w after current) es)
  unfolding any select
  any-window seq [] = refl
  any-window seq (e ∷ es) = ground (arith, any-window seq es)

  pub any-in_window :
      (seq : ℕ) (a b : Db)
      → SameWindow a b
      → any (has_seq (in_window w after current) seq) b.events
        ≡ any (has_seq (in_window w after current) seq) a.events
  any-in_window seq a b s =
      any-window seq b.events ∙ ap (any (λ e. e.seq == seq)) s.rows ∙ sym (any-window seq a.events)

  pub SameWindow-trans : {a b c : Db} → SameWindow a b → SameWindow b c → SameWindow a c
  SameWindow-trans {a} {b} s t = record {
    rows = t.rows ∙ s.rows;
    refs = λ seq h. t.refs seq (any-in_window seq a b s ∙ h) ∙ s.refs seq h;
  }

  pub Outside-SameWindow : (seq : ℕ) (a b : Db) → SameWindow a b → Outside a seq → Outside b seq
  Outside-SameWindow seq a b s h = any-in_window seq a b s ∙ h
