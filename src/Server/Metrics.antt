-- ===== src/Server/Metrics.antt =====
-- internal/server/db/metrics.go: the counter of transferred bytes.
use syna.Prelude.{ℕ, ◌+◌, ℤ, pos, negsuc, Option, none, some, ◌==◌, if◌then◌else◌}
use syna.Server.Schema.{Db}

abbrev stored : Option ℕ → ℕ
stored none = 0
stored (some n) = n

unfoldable pub add_transferred_bytes : ℤ → Db → Db
add_transferred_bytes (negsuc n) d = d
add_transferred_bytes (pos n) d =
    if n == 0 then d else record d { transferred_bytes = some (stored d.transferred_bytes + n) }

unfoldable pub transferred_bytes : Db → ℕ
transferred_bytes d = stored d.transferred_bytes
