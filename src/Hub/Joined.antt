-- ===== src/Hub/Joined.antt =====
-- What `Subscribe` (internal/server/hub/hub.go) does to the subscribers of a workspace.
use mathlib.Core.Path.{subst}
use syna.Prelude.{
  ◌≢◌, All, ℕ, ◌<◌, String, eq_iff, ◌≡◌, refl, sym, ◌∙◌, ap, true, false, Option, some, List, [],
  ◌∷◌, ◌⊎◌, inl, inr, arith, leb, length, is_some, Bool-cases, Option-cases,
}
use syna.Table.{find, any, find-update, find_sound, any-find}
use syna.Hub.Numbered.{HubReach, AllBelow, AreNumbered, HubReach-IsNumbered}
use syna.Hub.Defs.{Subscriber, Group, Hub, is_group, joined, members_in, members_of, subscribe}

-- the subscriber that the next call makes
abbrev newcomer : Hub → Subscriber
newcomer h = record { id = h.next_id; buffer = [] }

some_inverse : {A : Type 0} {a b : A} → ◌≡◌ {A = Option A} (some a) (some b) → a ≡ b
some_inverse h = cc

find_own :
    (w : String) (members : List Subscriber) (groups : List Group)
    → find (is_group w) (record { workspace_id = w; members = members } ∷ groups)
      ≡ some (record { workspace_id = w; members = members })
unfolding find
find_own w members groups = rw ((eq_iff w w).1 refl) refl

-- no subscriber of any workspace has the number
abbrev pub IsNew : ℕ → List Group → Type 0
IsNew id groups =
    All (λ (g : Group). All (λ (s : Subscriber). ◌≢◌ {A = ℕ} s.id id) g.members) groups

members-IsNew :
    (n : ℕ) (members : List Subscriber)
    → AllBelow n members
    → All (λ (s : Subscriber). ◌≢◌ {A = ℕ} s.id n) members
members-IsNew n [] h = tt
members-IsNew n (s ∷ ss) h = (λ e. absurd (omega (arith, h.0, e)), members-IsNew n ss h.1)

AreNumbered→IsNew : (n : ℕ) (groups : List Group) → AreNumbered n groups → IsNew n groups
AreNumbered→IsNew n [] h = tt
AreNumbered→IsNew n (g ∷ gs) h = (members-IsNew n g.members h.0, AreNumbered→IsNew n gs h.1)

newcomer-joins :
    (w : String) (h : Hub) {accepted : Hub × ℕ}
    → subscribe w h ≡ some accepted
    → (members_of w accepted.0.groups ≡ newcomer h ∷ members_of w h.groups)
      × (accepted.1 ≡ h.next_id)
      × ((members_of w h.groups ≡ []) ⊎ (length (members_of w h.groups) < h.max_per_ws))
unfolding subscribe members_of
newcomer-joins w h {accepted} e = elim (Option-cases (find (is_group w) h.groups)) [
  | inl missing ↦
      let absent : any (is_group w) h.groups ≡ false =
        any-find (is_group w) h.groups ∙ ap is_some missing in
      let same = some_inverse (rw (missing, absent) at e) in
      (
        ap (λ (a : Hub × ℕ). members_in (find (is_group w) a.0.groups)) (sym same)
            ∙ rw (find_own w (newcomer h ∷ []) h.groups, missing) refl,
        ap (λ (a : Hub × ℕ). a.1) (sym same),
        inl (rw missing refl),
      )
  | inr (g, found) ↦ elim (Bool-cases (leb h.max_per_ws (length g.members))) [
    | inl full ↦ absurd (ground (arith, found, full))
    | inr free ↦
        let there : any (is_group w) h.groups ≡ true =
          any-find (is_group w) h.groups ∙ ap is_some found in
        let same = some_inverse (rw (found, free, there) at e) in
        (
          ap (λ (a : Hub × ℕ). members_in (find (is_group w) a.0.groups)) (sym same)
              ∙ rw
                  (find-update (is_group w) (joined (newcomer h)) (λ r. refl) (is_group w) h.groups)
                  (rw found (rw (find_sound (is_group w) h.groups found) refl)),
          ap (λ (a : Hub × ℕ). a.1) (sym same),
          inr (rw found (ground (arith, free))),
        )
  ]
]

-- In a hub that calls from its start on have led to, a subscription that is accepted adds to the
-- subscribers of its workspace one with an empty buffer and the number that the call returns, which no
-- subscriber of any workspace has; before it the workspace had none, or fewer than the limit.
pub members_of-subscribe :
    (w : String) (h : Hub) {accepted : Hub × ℕ}
    → HubReach h
    → subscribe w h ≡ some accepted
    → (members_of w accepted.0.groups
        ≡ record { id = accepted.1; buffer = [] } ∷ members_of w h.groups)
      × IsNew accepted.1 h.groups
      × ((members_of w h.groups ≡ []) ⊎ (length (members_of w h.groups) < h.max_per_ws))
members_of-subscribe w h {accepted} reached e =
    let (joins, number, room) = newcomer-joins w h e in
    (
      joins ∙ ap (λ n. record { id = n; buffer = [] } ∷ members_of w h.groups) (sym number),
      subst (λ n. IsNew n h.groups) (sym number)
          (AreNumbered→IsNew h.next_id h.groups (HubReach-IsNumbered h reached)),
      room,
    )
