-- ===== src/Tests/Server.antt =====
-- The properties of the server at a concrete history.
use syna.Server.Purge.{reference_count}
use syna.Prelude.{
  map, ℕ, String, ◌≡◌, ◌≢◌, refl, ◌≤◌, true, arith, length, List, [], ◌∷◌, inr, eq_iff, false,
}
use syna.Prelude.Result.{Result, ok, err}
use syna.Server.Schema.{Db, empty}
use syna.Server.Errors.{DbError, path_head_mismatch}
use syna.Server.Workspaces.{retained_floor, floor_of}
use syna.Server.Events.{fetch_events, submit_event, fetched_rows}
use syna.Protocol.{EventRecord}
use syna.Server.Maintenance.{prune}
use syna.Server.Purge.{purge_workspace, PurgeObject}
use syna.Server.History.{Step, Reach, Reach-referenced, Reach-fetch_events-prune, Reach-IsOrdered}
use syna.Server.Refs.{exists_object, stored_count}
use syna.Server.Conflicts.{second_writer_refused}
use syna.Server.Paging.{fetched_rows_lem, Ascends, IsPrefixUpTo}
use syna.Server.Isolation.{fetch_events-purge_workspace, purge_workspace-IsGone, IsGone}
use syna.Server.Floor.{floor_of-IsFloor, IsFloor, retained_floor-root_add, fetch_events-root_add}
use syna.Tests.Data.{
  sha256, laptop, phone, add_docs, put_note, edit_note, add_photos, docs_snapshot, after, runs,
  rooted, noted, snapped, pruned, with_photos, shared, docs_root,
}

abbrev seqs : Result DbError (List EventRecord × ℕ) → List ℕ
seqs (ok (page, head)) = map (λ e. e.seq) page
seqs (err e) = []

abbrev twice : Db
unfolding runs
twice =
    after (submit_event laptop (record put_note { object_refs = "blob" ∷ "blob" ∷ [] }) 5 rooted)

noted_reached : Reach sha256 empty noted
unfolding runs
noted_reached =
    Reach.next
      (Reach.next
        (Reach.next
          (Reach.next (Reach.next Reach.here (Step.ensure "w" "key" 10 1 refl))
            (Step.upload "blob" "file_chunk" 5 "objects/blob.bin" 2 refl))
          (Step.associate "w" "blob" 3 refl))
        (Step.submit laptop add_docs 4 refl))
      (Step.submit laptop put_note 5 refl)

snapped_reached : Reach sha256 empty snapped
unfolding runs
snapped_reached = Reach.next noted_reached (Step.snapshot laptop docs_snapshot 6 refl)

shared_reached : Reach sha256 empty shared
unfolding runs
shared_reached = Reach.next noted_reached (Step.ensure "v" "other key" 10 7 refl)

Reach-referenced_example : exists_object "blob" noted.objects ≡ true
unfolding runs
Reach-referenced_example = Reach-referenced sha256 "blob" noted_reached (omega arith)

Reach-fetch_events-prune_example :
    fetch_events "w" 0 10 (prune 100 0 50 snapped).0 ≡ fetch_events "w" 0 10 snapped
Reach-fetch_events-prune_example = Reach-fetch_events-prune sha256 "w" 0 10 100 0 50 snapped_reached

other_workspace : ◌≢◌ {A = String} "w" "v"
other_workspace e = let apart : false ≡ true = (eq_iff "w" "v").1 e in cc

second_writer_refused_example : submit_event phone edit_note 6 noted ≡ err (path_head_mismatch 2)
unfolding runs
second_writer_refused_example =
    second_writer_refused laptop phone put_note edit_note 5 6 rooted refl refl refl 0 refl refl tt
      tt refl (omega arith)

fetched_rows_lem_example :
    (length (fetched_rows "w" 0 2 10 noted) ≤ 10)
    × Ascends 0 (fetched_rows "w" 0 2 10 noted)
    × IsPrefixUpTo 10 1 (fetched_rows "w" 0 2 10 noted)
unfolding runs
fetched_rows_lem_example = fetched_rows_lem "w" 0 2 10 1 noted refl

abbrev candidates : List PurgeObject
candidates = record { object_id = "blob"; size_bytes = 5 } ∷ []

fetch_events-purge_workspace_example :
    fetch_events "v" 0 10 (after (purge_workspace "w" candidates 8 shared))
    ≡ fetch_events "v" 0 10 shared
unfolding runs
fetch_events-purge_workspace_example =
    fetch_events-purge_workspace "w" "v" 0 10 8 candidates shared refl other_workspace
      (Reach-IsOrdered sha256 shared_reached)

purge_workspace-IsGone_example : IsGone "w" shared (after (purge_workspace "w" candidates 8 shared))
unfolding runs
purge_workspace-IsGone_example = purge_workspace-IsGone "w" candidates 8 shared refl

floor_of-IsFloor_example : IsFloor 7 (docs_root ∷ []) (floor_of 7 (docs_root ∷ []))
unfolding runs
floor_of-IsFloor_example = floor_of-IsFloor 7 (docs_root ∷ []) (inr (omega arith), tt)

pruned_lem : (prune 100 0 50 snapped).0 ≡ pruned
unfolding runs
pruned_lem = refl

retained_floor-root_add_example : retained_floor "w" with_photos ≡ ok 0
unfolding runs
retained_floor-root_add_example = retained_floor-root_add laptop add_photos 101 pruned refl refl

fetch_events-root_add_example :
    (page : List EventRecord × ℕ) × (fetch_events "w" 0 10 with_photos ≡ ok page)
unfolding runs
fetch_events-root_add_example = fetch_events-root_add laptop add_photos 101 0 10 pruned refl refl

-- A cursor at 0 gets the third event, but neither of the two that were pruned.
missed_events : seqs (fetch_events "w" 0 10 with_photos) ≡ 3 ∷ []
unfolding runs
missed_events = refl

-- Two references to one object are stored as one row, and counted as two.
counted_twice : (reference_count "blob" twice ≡ 1) × (stored_count "blob" twice.objects ≡ 2)
unfolding runs
counted_twice = (refl, refl)
