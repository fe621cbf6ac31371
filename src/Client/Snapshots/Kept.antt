-- ===== src/Client/Snapshots/Kept.antt =====
-- What becomes of a local file where a snapshot is applied (internal/client/daemon/snapshot_apply.go).
use syna.Prelude.{
  String, str_eq, eq_iff, ◌≡◌, refl, ◌∙◌, true, false, Option, none, some, arith, Bool-cases, inl,
  inr, ◌⊎◌,
}
use syna.Prelude.Result.{Result, ok, err}
use syna.Client.State.{Root, Entry}
use syna.Client.World.{World}
use syna.Client.Applier.{Failure, fetch_file, fetch_file-digest}
use syna.Client.Snapshots.Defs.{
  SnapshotEntry, SnapshotWorld, Disk, put_file, has_baseline, Choice, keep, replace, preserve,
  choose, conflict_target, as_file_put, replaced, fetched_to, can_copy, settled, digest_of,
  apply_snapshot_file,
}

module _ (w : World) (v : SnapshotWorld) where
  -- The content is still there, or in the conflict copy, or it is the one of the last agreement with
  -- the server.
  abbrev pub IsKept : Root → String → String → Option Entry → String → Disk → Type 0
  IsKept root rel_path target prior content disk =
      (disk target ≡ some content)
      ⊎ (disk (conflict_target w v root rel_path target) ≡ some content)
      ⊎ (has_baseline (w.sha256_hex content) prior ≡ true)

  put_file-own :
      (path content : String) (disk : Disk) → put_file path content disk path ≡ some content
  put_file-own path content disk = ground (arith, (eq_iff path path).1 refl)

  put_file-apart :
      (path other content : String) (disk : Disk)
      → str_eq other path ≡ false
      → put_file path content disk other ≡ disk other
  put_file-apart path other content disk h = rw h refl

  replaced-apart :
      (target other : String) (disk : Disk) (r : Result Failure String)
      → str_eq other target ≡ false
      → (replaced w v target disk r).0 other ≡ disk other
  replaced-apart target other disk (err e) h = refl
  replaced-apart target other disk (ok content) h = put_file-apart target other content disk h

  settled-IsKept :
      (root : Root) (rel_path target path_id content : String) (e : SnapshotEntry)
      (prior : Option Entry) (disk : Disk) (c : Choice)
      → str_eq (conflict_target w v root rel_path target) target ≡ false
      → disk target ≡ some content
      → choose prior (some (w.sha256_hex content)) e.content_sha256 ≡ c
      → IsKept root rel_path target prior content
          (settled w v root rel_path target path_id e disk (some content) c).0
  unfolding choose
  settled-IsKept root rel_path target path_id content e prior disk keep apart there chosen =
      inl there
  settled-IsKept root rel_path target path_id content e prior disk replace apart there chosen =
      inr (inr (ground (arith, chosen)))
  settled-IsKept root rel_path target path_id content e prior disk preserve apart there chosen =
      elim (Bool-cases (can_copy w v target (conflict_target w v root rel_path target))) [
        | inl copied ↦ rw copied (
            inr (
              inl (
                replaced-apart target (conflict_target w v root rel_path target)
                  (put_file (conflict_target w v root rel_path target) content disk)
                  (fetch_file w root target path_id (as_file_put w v e)) apart
                ∙ put_file-own (conflict_target w v root rel_path target) content disk)))
        | inr refused ↦ rw refused (inl there)
      ]

  -- Where the conflict copy has another path than the file, the content that a file has before a
  -- snapshot's entry is applied to it is afterwards still in the file or in its conflict copy, unless
  -- it is the content of the entry that the device last agreed on with the server; also where the
  -- application fails.
  pub apply_snapshot_file-IsKept :
      (root : Root) (rel_path target path_id content : String) (e : SnapshotEntry)
      (prior : Option Entry) (disk : Disk)
      → str_eq (conflict_target w v root rel_path target) target ≡ false
      → disk target ≡ some content
      → IsKept root rel_path target prior content
          (apply_snapshot_file w v root rel_path target path_id e prior disk).0
  unfolding apply_snapshot_file
  apply_snapshot_file-IsKept root rel_path target path_id content e prior disk apart there =
      elim (Bool-cases (v.is_unreadable target)) [
        | inl unread ↦ rw unread (inl there)
        | inr read ↦ rw read (
            rw there (
              settled-IsKept root rel_path target path_id content e prior disk
                (choose prior (some (w.sha256_hex content)) e.content_sha256) apart there refl))
      ]

  -- what stands in the file after it was settled
  abbrev pub IsSettled : String → SnapshotEntry → Option Entry → Disk → Type 0
  IsSettled target e prior disk =
      (content : String) × (disk target ≡ some content)
      × ((w.sha256_hex content ≡ e.content_sha256) ⊎ (has_baseline e.content_sha256 prior ≡ true))

  kept-IsSettled :
      (target local : String) (e : SnapshotEntry) (prior : Option Entry) (disk : Disk)
      → disk target ≡ some local
      → choose prior (some (w.sha256_hex local)) e.content_sha256 ≡ keep
      → IsSettled target e prior disk
  unfolding choose
  kept-IsSettled target local e prior disk there chosen =
      elim (Bool-cases (str_eq (w.sha256_hex local) e.content_sha256)) [
        | inl same ↦ (local, there, inl ((eq_iff (w.sha256_hex local) e.content_sha256).0 same))
        | inr other ↦ (local, there, inr (ground (arith, other, chosen)))
      ]

  replaced-IsSettled :
      (target : String) (e : SnapshotEntry) (prior : Option Entry) (disk : Disk)
      (r : Result Failure String)
      → ((content : String) → r ≡ ok content → w.sha256_hex content ≡ e.content_sha256)
      → (replaced w v target disk r).1 ≡ ok tt
      → IsSettled target e prior (replaced w v target disk r).0
  replaced-IsSettled target e prior disk (err why) digest done = cc
  replaced-IsSettled target e prior disk (ok content) digest done =
      (content, put_file-own target content disk, inl (digest content refl))

  fetched-IsSettled :
      (root : Root) (target path_id : String) (e : SnapshotEntry) (prior : Option Entry)
      (disk : Disk)
      → (fetched_to w v root target path_id e disk).1 ≡ ok tt
      → IsSettled target e prior (fetched_to w v root target path_id e disk).0
  fetched-IsSettled root target path_id e prior disk done =
      replaced-IsSettled target e prior disk (fetch_file w root target path_id (as_file_put w v e))
        (λ content got. fetch_file-digest w root target path_id (as_file_put w v e) got) done

  settled-IsSettled :
      (root : Root) (rel_path target path_id : String) (e : SnapshotEntry) (prior : Option Entry)
      (disk : Disk) (local : Option String) (c : Choice)
      → disk target ≡ local
      → choose prior (digest_of w v local) e.content_sha256 ≡ c
      → (settled w v root rel_path target path_id e disk local c).1 ≡ ok tt
      → IsSettled target e prior (settled w v root rel_path target path_id e disk local c).0
  unfolding choose
  settled-IsSettled root rel_path target path_id e prior disk none keep there chosen done = cc
  settled-IsSettled root rel_path target path_id e prior disk (some local) keep there chosen done =
      kept-IsSettled target local e prior disk there chosen
  settled-IsSettled root rel_path target path_id e prior disk local replace there chosen done =
      fetched-IsSettled root target path_id e prior disk done
  settled-IsSettled root rel_path target path_id e prior disk none preserve there chosen done =
      fetched-IsSettled root target path_id e prior disk done
  settled-IsSettled root rel_path target path_id e prior disk (some local) preserve there chosen
        done =
      elim (Bool-cases (can_copy w v target (conflict_target w v root rel_path target))) [
        | inl copied ↦ rw copied (
            fetched-IsSettled root target path_id e prior
              (put_file (conflict_target w v root rel_path target) local disk) (rw copied at done))
        | inr refused ↦ absurd (ground (arith, (rw refused at done)))
      ]

  -- After a snapshot's entry was applied to a file, the file has the content that the entry says, or a
  -- later edit of the content on which the device last agreed with the server and which the entry
  -- says.
  pub apply_snapshot_file-IsSettled :
      (root : Root) (rel_path target path_id : String) (e : SnapshotEntry) (prior : Option Entry)
      (disk : Disk)
      → (apply_snapshot_file w v root rel_path target path_id e prior disk).1 ≡ ok tt
      → IsSettled target e prior
          (apply_snapshot_file w v root rel_path target path_id e prior disk).0
  unfolding apply_snapshot_file
  apply_snapshot_file-IsSettled root rel_path target path_id e prior disk done =
      elim (Bool-cases (v.is_unreadable target)) [
        | inl unread ↦ absurd (ground (arith, (rw unread at done)))
        | inr read ↦ rw read (
            settled-IsSettled root rel_path target path_id e prior disk (disk target)
              (choose prior (digest_of w v (disk target)) e.content_sha256) refl refl
              (rw read at done))
      ]
