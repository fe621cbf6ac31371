-- ===== src/Server/History.antt =====
-- What the server does to its database over time: one step for each call of an operation of
-- internal/server/db (or of the statement of internal/server/objectstore) that succeeds, in any
-- order. A call that fails writes nothing.
use syna.Server.Retention.{fetch_events-prune}
use syna.Server.Purge.{reference_count}
use syna.Server.Refs.{exists_object}
use syna.Server.Objects.{is_object}
use syna.Server.Events.{fetch_events}
use syna.Table.{any-find}
use syna.Prelude.{true, ◌<◌, arith, ℕ, String, ◌≡◌, Bool, List, ℤ}
use syna.Prelude.Result.{ok}
use syna.Protocol.{EventSubmitRequest, SnapshotSubmitRequest}
use syna.Server.Schema.{Db, Session, empty}
use syna.Server.Objects.{record_object, associate_object_with_workspace}
use syna.Server.Workspaces.{ensure_workspace_within_limit}
use syna.Server.Events.{submit_event, SubmitResult}
use syna.Server.Snapshots.{save_snapshot}
use syna.Server.Maintenance.{prune}
use syna.Server.Purge.{purge_workspace, PurgeObject, PurgeResult}
use syna.Server.Sessions.{
  prune_expired_challenges, save_challenge, delete_challenge, create_session, authenticate,
}
use syna.Server.Metrics.{add_transferred_bytes}
use syna.Server.Refs.{
  IsCounted, submit_event-IsCounted, save_snapshot-IsCounted, record_object-IsCounted,
  associate-IsCounted, prune-IsCounted, purge_workspace-IsCounted, SameCounts-IsCounted,
  ensure_workspace-IsCounted, IsCounted-empty,
}
use syna.Server.Order.{
  IsOrdered, submit_event-IsOrdered, save_snapshot-IsOrdered, prune-IsOrdered,
  purge_workspace-IsOrdered, ensure_workspace-IsOrdered, SameLog-IsOrdered, record_object-SameLog,
  associate-SameLog,
}
use syna.Server.Unsynced.{
  save_challenge-SameData, prune_expired_challenges-SameData, delete_challenge-SameData,
  create_session-SameData, authenticate-SameData, add_transferred_bytes-SameData,
}

module _ (sha256 : String → String) where
  pub data Step (d : Db) : Db → Type 0 where
    upload :
        (o kind : String) (size : ℕ) (path : String) (now : ℕ) {d' : Db}
        → d' ≡ record_object o kind size path now d
        → Step d d'
    associate :
        (w o : String) (now : ℕ) {d' : Db}
        → associate_object_with_workspace w o now d ≡ ok d'
        → Step d d'
    ensure :
        (w key : String) (limit now : ℕ) {d' : Db} {created : Bool}
        → ensure_workspace_within_limit w key limit now d ≡ ok (d', created)
        → Step d d'
    submit :
        (sess : Session) (req : EventSubmitRequest) (now : ℕ) {d' : Db} {r : SubmitResult}
        → submit_event sess req now d ≡ ok (d', r)
        → Step d d'
    snapshot :
        (sess : Session) (req : SnapshotSubmitRequest) (now : ℕ) {d' : Db}
        → save_snapshot sess req now d ≡ ok d'
        → Step d d'
    pruned :
        (now event_retention zero_ref_retention : ℕ) {d' : Db}
        → d' ≡ (prune now event_retention zero_ref_retention d).0
        → Step d d'
    purged :
        (w : String) (candidates : List PurgeObject) (now : ℕ) {d' : Db} {r : PurgeResult}
        → purge_workspace w candidates now d ≡ ok (d', r)
        → Step d d'
    challenged :
        (w device name client server : String) (now : ℕ) {d' : Db}
        → d' ≡ save_challenge w device name client server now d
        → Step d d'
    expired : (now : ℕ) {d' : Db} → d' ≡ prune_expired_challenges now d → Step d d'
    answered :
        (w device client : String) {d' : Db} → d' ≡ delete_challenge w device client d → Step d d'
    opened :
        (token w device name : String) (ttl now : ℕ) {d' : Db} {r : String} {until seq : ℕ}
        → create_session sha256 token w device name ttl now d ≡ ok (d', r, until, seq)
        → Step d d'
    used :
        (token : String) (now : ℕ) {d' : Db} {sess : Session}
        → authenticate sha256 token now d ≡ ok (d', sess)
        → Step d d'
    transferred : (n : ℤ) {d' : Db} → d' ≡ add_transferred_bytes n d → Step d d'

  pub data Reach (d : Db) : Db → Type 0 where
    here : Reach d d
    next : {e f : Db} → Reach d e → Step e f → Reach d f

  pub Step-IsCounted : {d d' : Db} → Step d d' → IsCounted d → IsCounted d'
  Step-IsCounted (upload o kind size path now e) c =
      rw e (record_object-IsCounted o kind size path now _ c)
  Step-IsCounted (associate w o now h) c = associate-IsCounted w o now _ h c
  Step-IsCounted (ensure w key limit now h) c = ensure_workspace-IsCounted w key limit now _ h c
  Step-IsCounted (submit sess req now h) c = submit_event-IsCounted sess req now _ h c
  Step-IsCounted (snapshot sess req now h) c = save_snapshot-IsCounted sess req now _ h c
  Step-IsCounted (pruned now er zr e) c = rw e (prune-IsCounted now er zr _ c)
  Step-IsCounted (purged w candidates now h) c = purge_workspace-IsCounted w candidates now _ h c
  Step-IsCounted (challenged w device name client server now e) c =
      rw e
        (SameCounts-IsCounted (save_challenge-SameData w device name client server now _).counts c)
  Step-IsCounted (expired now e) c =
      rw e (SameCounts-IsCounted (prune_expired_challenges-SameData now _).counts c)
  Step-IsCounted (answered w device client e) c =
      rw e (SameCounts-IsCounted (delete_challenge-SameData w device client _).counts c)
  Step-IsCounted (opened token w device name ttl now h) c =
      SameCounts-IsCounted (create_session-SameData sha256 token w device name ttl now _ h).counts c
  Step-IsCounted (used token now h) c =
      SameCounts-IsCounted (authenticate-SameData sha256 token now _ h).counts c
  Step-IsCounted (transferred n e) c =
      rw e (SameCounts-IsCounted (add_transferred_bytes-SameData n _).counts c)

  pub Step-IsOrdered : {d d' : Db} → Step d d' → IsOrdered d → IsOrdered d'
  Step-IsOrdered (upload o kind size path now e) c =
      rw e (SameLog-IsOrdered (record_object-SameLog o kind size path now _) c)
  Step-IsOrdered (associate w o now h) c = SameLog-IsOrdered (associate-SameLog w o now _ h) c
  Step-IsOrdered (ensure w key limit now h) c = ensure_workspace-IsOrdered w key limit now _ h c
  Step-IsOrdered (submit sess req now h) c = submit_event-IsOrdered sess req now _ h c
  Step-IsOrdered (snapshot sess req now h) c = save_snapshot-IsOrdered sess req now _ h c
  Step-IsOrdered (pruned now er zr e) c = rw e (prune-IsOrdered now er zr _ c)
  Step-IsOrdered (purged w candidates now h) c = purge_workspace-IsOrdered w candidates now _ h c
  Step-IsOrdered (challenged w device name client server now e) c =
      rw e (SameLog-IsOrdered (save_challenge-SameData w device name client server now _).log c)
  Step-IsOrdered (expired now e) c =
      rw e (SameLog-IsOrdered (prune_expired_challenges-SameData now _).log c)
  Step-IsOrdered (answered w device client e) c =
      rw e (SameLog-IsOrdered (delete_challenge-SameData w device client _).log c)
  Step-IsOrdered (opened token w device name ttl now h) c =
      SameLog-IsOrdered (create_session-SameData sha256 token w device name ttl now _ h).log c
  Step-IsOrdered (used token now h) c =
      SameLog-IsOrdered (authenticate-SameData sha256 token now _ h).log c
  Step-IsOrdered (transferred n e) c =
      rw e (SameLog-IsOrdered (add_transferred_bytes-SameData n _).log c)

  Reach-IsCounted_from : {d e : Db} → Reach d e → IsCounted d → IsCounted e
  Reach-IsCounted_from here c = c
  Reach-IsCounted_from (next r st) c = Step-IsCounted st (Reach-IsCounted_from r c)

  Reach-IsOrdered_from : {d e : Db} → Reach d e → IsOrdered d → IsOrdered e
  Reach-IsOrdered_from here c = c
  Reach-IsOrdered_from (next r st) c = Step-IsOrdered st (Reach-IsOrdered_from r c)

  pub Reach-IsCounted : {d : Db} → Reach empty d → IsCounted d
  Reach-IsCounted r = Reach-IsCounted_from r IsCounted-empty

  pub Reach-IsOrdered : {d : Db} → Reach empty d → IsOrdered d
  Reach-IsOrdered r = Reach-IsOrdered_from r (record { descending = tt; workspaces_unique = tt })

  -- In every database that the server can reach from an empty one, an object that an event, a
  -- snapshot or a snapshot's contents refers to has its row: no pruning, purge or other operation,
  -- in any order, deletes an object that is still referred to.
  pub Reach-referenced :
      {d : Db} (o : String)
      → Reach empty d
      → 0 < reference_count o d
      → exists_object o d.objects ≡ true
  Reach-referenced {d} o r h =
      let c = (Reach-IsCounted r).bounded o in ground (arith, c, any-find (is_object o) d.objects)

  -- In every reachable database a fetch of events answers the same before and after a pruning, for
  -- every workspace, cursor, page size, time and retentions: the same events with the same object
  -- references, or the same error.
  pub Reach-fetch_events-prune :
      {d : Db} (w : String) (after limit now event_retention zero_ref_retention : ℕ)
      → Reach empty d
      → fetch_events w after limit (prune now event_retention zero_ref_retention d).0
        ≡ fetch_events w after limit d
  Reach-fetch_events-prune {d} w after limit now event_retention zero_ref_retention r =
      fetch_events-prune w after limit now event_retention zero_ref_retention d (Reach-IsOrdered r)
