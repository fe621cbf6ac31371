-- ===== src/Api/Limits.antt =====
-- The size of a page (`parseEventFetchQuery` of internal/server/api/events.go).
use syna.Prelude.{
  ℕ, zero, suc, ◌≤◌, ◌<◌, String, str_eq, ℤ, pos, negsuc, ◌≡◌, ap, Option, none, some, arith,
  if◌then◌else◌, Bool-cases, inl, inr,
}
use syna.Prelude.Result.{ok, >>=-eq-ok, ok-injective}
use syna.Api.Requests.{parse_event_fetch_query, positive, non_negative}

positive_lem : (parsed : Option ℤ) {n : ℕ} → positive parsed ≡ ok n → 0 < n
positive_lem none h = cc
positive_lem (some (negsuc m)) h = cc
positive_lem (some (pos zero)) h = cc
positive_lem (some (pos (suc m))) h = let e = ok-injective h in omega (arith, e)

limit_positive :
    (parsed : Option ℤ) (raw : String) {n : ℕ}
    → (if str_eq raw "" then ok 100 else positive parsed) ≡ ok n
    → 0 < n
limit_positive parsed raw h = elim (Bool-cases (str_eq raw "")) [
  | inl missing ↦ let e = ok-injective (rw missing at h) in omega (arith, e)
  | inr there ↦ positive_lem parsed (rw there at h)
]

-- Whatever the client asks for, the page of a query that is accepted has room for an event, and
-- for no more than the configured maximum where there is one.
pub parse_event_fetch_query-bounds :
    (parse_int : String → Option ℤ) (max_page : ℕ) (raw_after raw_limit : String) {after limit : ℕ}
    → parse_event_fetch_query parse_int max_page raw_after raw_limit ≡ ok (after, limit)
    → 0 < max_page
    → (0 < limit) × (limit ≤ max_page)
unfolding parse_event_fetch_query
parse_event_fetch_query-bounds parse_int max_page raw_after raw_limit {after} {limit} h some_max =
    let (cursor, _, a) =
      >>=-eq-ok (if str_eq raw_after "" then ok 0 else non_negative (parse_int raw_after)) _ h in
    let (asked, read, b) =
      >>=-eq-ok (if str_eq raw_limit "" then ok 100 else positive (parse_int raw_limit)) _ a in
    let room = limit_positive (parse_int raw_limit) raw_limit read in
    let same = ap (λ (p : ℕ × ℕ). p.1) (ok-injective b) in ground (arith, room, same)
