-- ===== src/Client/State/Warnings.antt =====
-- internal/client/state/db.go: the table `warnings`. SQLite's LIKE is an argument, the pattern first.
use Prim.Native.String.{◌++◌ as append}
use syna.Prelude.{ℕ, String, str_eq, ◌==◌, Bool, ◌&&◌, ◌||◌, List, [], ◌∷◌, ltb, if◌then◌else◌}
use syna.Table.{delete, upsert}
use syna.Client.State.Schema.{StateDb, Warning}
use syna.Client.State.Order.{text_leb}

unfoldable pub upsert_warning : String → String → ℕ → StateDb → StateDb
upsert_warning key message created_at d = record d {
  warnings =
      upsert (λ w. str_eq w.key key) (λ w. record w { message = message; created_at = created_at })
        (record { key = key; message = message; created_at = created_at }) d.warnings;
}

unfoldable pub clear_warnings_with_prefix : (String → String → Bool) → String → StateDb → StateDb
clear_warnings_with_prefix like prefix d = record d {
  warnings = delete (λ w. like (append prefix "%") w.key) d.warnings;
}

-- ORDER BY created_at ASC, key ASC
abbrev warning_leb : Warning → Warning → Bool
warning_leb a b =
    ltb a.created_at b.created_at || (a.created_at == b.created_at && text_leb a.key b.key)

unfoldable pub insert_warning : Warning → List Warning → List Warning
insert_warning w [] = w ∷ []
insert_warning w (v ∷ rest) =
    let later = insert_warning w rest in if warning_leb w v then w ∷ v ∷ rest else v ∷ later

unfoldable pub sort_warnings : List Warning → List Warning
sort_warnings [] = []
sort_warnings (w ∷ ws) = insert_warning w (sort_warnings ws)

unfoldable pub list_warnings : StateDb → List Warning
list_warnings d = sort_warnings d.warnings
