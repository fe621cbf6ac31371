-- ===== src/Server/Floor/Minimum.antt =====
-- What `RecomputeRetainedFloor` computes, against a description with no loop.
use syna.Prelude.{
  ◌⊎◌, ◌∙◌, ap, ℕ, ◌≤◌, ◌<◌, ◌==◌, ◌≡◌, refl, Bool, true, false, ◌||◌, none, some, List, [], ◌∷◌,
  arith, ltb, if◌then◌else◌, Bool-cases, Option-cases, inl, inr, All,
}
use syna.Table.{any}
use syna.Server.Schema.{RootRow}
use syna.Server.Workspaces.{floor_loop, floor_of}

-- the sequence of a root's latest snapshot, 0 where it has none
abbrev pub snapshot_seq : RootRow → ℕ
snapshot_seq r = elim r.latest_snapshot_seq [ none ↦ 0 | some s ↦ s ]

abbrev pub lacks_snapshot : RootRow → Bool
lacks_snapshot r = elim r.latest_snapshot_seq [ none ↦ true | some s ↦ false ]

-- It has a snapshot, of a sequence above 0.
abbrev pub HasSnapshot : RootRow → Type 0
HasSnapshot r = (lacks_snapshot r ≡ false) × (0 < snapshot_seq r)

pub floor_loop-lacking :
    (floor : ℕ) (roots : List RootRow)
    → any lacks_snapshot roots ≡ true
    → floor_loop floor roots ≡ 0
unfolding floor_loop any
floor_loop-lacking floor [] h = cc
floor_loop-lacking floor (r ∷ rs) h = elim (Option-cases r.latest_snapshot_seq) [
  | inl missing ↦ rw missing refl
  | inr (s, there) ↦ rw there (
      floor_loop-lacking (if ltb s floor || floor == 0 then s else floor) rs
        (ground (arith, there)))
]

-- a lower bound of the snapshots
abbrev pub IsBelow : ℕ → List RootRow → Type 0
IsBelow floor roots = All (λ r. floor ≤ snapshot_seq r) roots

IsBelow-mono : (a b : ℕ) (roots : List RootRow) → a ≤ b → IsBelow b roots → IsBelow a roots
IsBelow-mono a b [] h u = tt
IsBelow-mono a b (r ∷ rs) h u = (omega (arith, u.0), IsBelow-mono a b rs h u.1)

-- is the sequence that of a snapshot?
abbrev pub attained : ℕ → List RootRow → Bool
attained floor roots = any (λ r. snapshot_seq r == floor) roots

-- the floor after one root
abbrev lowered : ℕ → ℕ → ℕ
lowered floor seq = if ltb seq floor || floor == 0 then seq else floor

floor_loop_step :
    (floor s : ℕ) (r : RootRow) (rs : List RootRow)
    → r.latest_snapshot_seq ≡ some s
    → floor_loop floor (r ∷ rs) ≡ floor_loop (lowered floor s) rs
unfolding floor_loop
floor_loop_step floor s r rs there = rw there refl

floor_loop_end : (floor : ℕ) → floor_loop floor [] ≡ floor
unfolding floor_loop
floor_loop_end floor = refl

-- What the loop ends at: the least of the floor that it starts from and the snapshots.
record IsLeast (floor : ℕ) (roots : List RootRow) (m : ℕ) : Type 0 where
  bound : m ≤ floor
  below : IsBelow m roots
  reached : (m ≡ floor) ⊎ (attained m roots ≡ true)
  positive : 0 < m

IsLeast-cons :
    (floor s m : ℕ) (r : RootRow) (rs : List RootRow)
    → 0 < floor
    → 0 < s
    → r.latest_snapshot_seq ≡ some s
    → IsLeast (lowered floor s) rs m
    → IsLeast floor (r ∷ rs) m
unfolding any
IsLeast-cons floor s m r rs h p there l =
    let same : snapshot_seq r ≡ s = ground (arith, there) in
    record {
      bound = ground (arith, l.bound);
      below = (ground (arith, l.bound, same), l.below);
      reached = ground (arith, l.reached, same);
      positive = l.positive;
    }

floor_loop-IsLeast :
    (floor : ℕ) (roots : List RootRow)
    → 0 < floor
    → All HasSnapshot roots
    → IsLeast floor roots (floor_loop floor roots)
unfolding any
floor_loop-IsLeast floor [] h all =
    rw floor_loop_end (record { bound = omega arith; below = tt; reached = inl refl; positive = h })
floor_loop-IsLeast floor (r ∷ rs) h all = elim (Option-cases r.latest_snapshot_seq) [
  | inl missing ↦ absurd (ground (arith, all.0.0, missing))
  | inr (s, there) ↦
      let p : 0 < s = ground (arith, all.0.1, there) in
      rw (floor_loop_step floor s r rs there) (
        IsLeast-cons floor s _ r rs h p there
          (floor_loop-IsLeast (lowered floor s) rs (ground (arith, p)) all.1))
]

-- the least sequence of the roots' snapshots
abbrev pub IsMinimum : ℕ → List RootRow → Type 0
IsMinimum floor roots = IsBelow floor roots × (attained floor roots ≡ true)

-- The floor that docs/07-backend.md asks for.
pub data IsFloor (current : ℕ) (roots : List RootRow) : ℕ → Type 0 where
  idle : roots ≡ [] → IsFloor current roots current
  unsnapshotted : any lacks_snapshot roots ≡ true → IsFloor current roots 0
  least : {floor : ℕ} → IsMinimum floor roots → IsFloor current roots floor

floor_loop-IsMinimum :
    (s : ℕ) (r : RootRow) (rs : List RootRow)
    → r.latest_snapshot_seq ≡ some s
    → 0 < s
    → All HasSnapshot rs
    → IsMinimum (floor_loop s rs) (r ∷ rs)
unfolding any
floor_loop-IsMinimum s r rs there p all =
    let same : snapshot_seq r ≡ s = ground (arith, there) in
    let l = floor_loop-IsLeast s rs p all in
    ((ground (arith, l.bound, same), l.below), ground (arith, l.reached, same))

floor_of-cons :
    (current s : ℕ) (r : RootRow) (rs : List RootRow)
    → r.latest_snapshot_seq ≡ some s
    → 0 < s
    → floor_of current (r ∷ rs) ≡ floor_loop s rs
unfolding floor_of
floor_of-cons current s r rs there p =
    let start : lowered 0 s ≡ s = ground (arith, p) in
    floor_loop_step 0 s r rs there ∙ ap (λ n. floor_loop n rs) start

pub floor_of-lacking :
    (current : ℕ) (roots : List RootRow)
    → any lacks_snapshot roots ≡ true
    → floor_of current roots ≡ 0
unfolding floor_of any
floor_of-lacking current [] h = cc
floor_of-lacking current (r ∷ rs) h = floor_loop-lacking 0 (r ∷ rs) h

-- Every snapshot is of a sequence above 0.
abbrev pub AllPositive : List RootRow → Type 0
AllPositive = All (λ r. (lacks_snapshot r ≡ true) ⊎ (0 < snapshot_seq r))

AllPositive→HasSnapshot :
    (roots : List RootRow)
    → AllPositive roots
    → any lacks_snapshot roots ≡ false
    → All HasSnapshot roots
unfolding any
AllPositive→HasSnapshot [] all h = tt
AllPositive→HasSnapshot (r ∷ rs) all h =
    ((ground arith, ground (arith, all.0)), AllPositive→HasSnapshot rs all.1 (ground arith))

floor_of_empty : (current : ℕ) → floor_of current [] ≡ current
unfolding floor_of
floor_of_empty current = refl

-- Where every snapshot is of a sequence above 0, the retained floor is the workspace's head if no
-- root is active, 0 if an active root has no snapshot, and else the least sequence of the active
-- roots' latest snapshots.
pub floor_of-IsFloor :
    (current : ℕ) (roots : List RootRow)
    → AllPositive roots
    → IsFloor current roots (floor_of current roots)
floor_of-IsFloor current [] all = rw floor_of_empty (IsFloor.idle refl)
floor_of-IsFloor current (r ∷ rs) all = elim (Bool-cases (any lacks_snapshot (r ∷ rs))) [
  | inl lacking ↦ rw (floor_of-lacking current (r ∷ rs) lacking) (IsFloor.unsnapshotted lacking)
  | inr complete ↦
      let snapped = AllPositive→HasSnapshot (r ∷ rs) all complete in
      elim (Option-cases r.latest_snapshot_seq) [
        | inl missing ↦ absurd (ground (arith, snapped.0.0, missing))
        | inr (s, there) ↦
            let p : 0 < s = ground (arith, snapped.0.1, there) in
            rw (floor_of-cons current s r rs there p)
              (IsFloor.least (floor_loop-IsMinimum s r rs there p snapped.1))
      ]
]
