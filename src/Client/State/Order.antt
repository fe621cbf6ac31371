-- ===== src/Client/State/Order.antt =====
-- The order of texts that SQLite and Go compare by: byte by byte.
use Prim.Native.String.{compare}
use text.Mathlib.Text.{is_le}
use syna.Prelude.{String, Bool}

abbrev pub text_leb : String → String → Bool
text_leb a b = is_le (compare a b)
