-- ===== src/Hub/Published.antt =====
-- What `Publish` (internal/server/hub/hub.go) does to the subscribers of a workspace.
use syna.Prelude.{
  ℕ, String, ◌==◌, ◌≡◌, refl, ◌∙◌, ap, true, false, List, [], ◌∷◌, ◌++◌, map, arith, Bool-cases,
  Option-cases, inl, inr,
}
use syna.Table.{find, any, select, update, delete, find-update, find_sound, any-map}
use syna.Hub.Defs.{
  WsMessage, Subscriber, Group, Hub, is_group, is_member, members_of, has_room, is_slow, offered,
  publish,
}
use syna.Hub.Groups.{delete_ids, delete_absent, members_of-unsubscribe_all}

-- no two have one number
abbrev pub AllDistinct : List Subscriber → Type 0
AllDistinct [] = Unit
AllDistinct (s ∷ ss) = (any (is_member s.id) ss ≡ false) × AllDistinct ss

abbrev pub received : WsMessage → Subscriber → Subscriber
received msg s = record s { buffer = s.buffer ++ (msg ∷ []) }

abbrev slow_ids : List Subscriber → List ℕ
slow_ids ss = map (λ s. s.id) (select is_slow ss)

offered_id : (msg : WsMessage) (s : Subscriber) → (offered msg s).id ≡ s.id
offered_id msg s = ground arith

-- a number of no member is not that of a slow one
slow_absent :
    (x : ℕ) (ss : List Subscriber)
    → any (is_member x) ss ≡ false
    → any (λ i. x == i) (slow_ids ss) ≡ false
unfolding any select
slow_absent x [] h = refl
slow_absent x (s ∷ ss) h = elim (Bool-cases (is_slow s)) [
  | inl slow ↦ rw slow (ground (arith, slow_absent x ss (ground arith)))
  | inr fast ↦ rw fast (slow_absent x ss (ground arith))
]

delete_ids_skip :
    (t : Subscriber) (ids : List ℕ) (ts : List Subscriber)
    → any (λ i. t.id == i) ids ≡ false
    → delete_ids ids (t ∷ ts) ≡ t ∷ delete_ids ids ts
unfolding any delete
delete_ids_skip t [] ts h = refl
delete_ids_skip t (i ∷ ids) ts h =
    let apart : is_member i t ≡ false = ground arith in
    rw apart (delete_ids_skip t ids (delete (is_member i) ts) (ground arith))

delete_first :
    (s : Subscriber) (ts : List Subscriber)
    → delete (is_member s.id) (s ∷ ts) ≡ delete (is_member s.id) ts
unfolding delete
delete_first s ts = let own : s.id == s.id ≡ true = ground arith in rw own refl

delete_slow_ids :
    (msg : WsMessage) (ss : List Subscriber)
    → AllDistinct ss
    → delete_ids (slow_ids ss) (map (offered msg) ss) ≡ map (received msg) (select has_room ss)
unfolding select
delete_slow_ids msg [] u = refl
delete_slow_ids msg (s ∷ ss) u = elim (Bool-cases (is_slow s)) [
  | inl slow ↦
      let crowded : has_room s ≡ false = ground (arith, slow) in
      let others_kept = delete_absent (is_member s.id) (map (offered msg) ss) (
        any-map (is_member s.id) (offered msg) (λ r. ap (λ i. i == s.id) (offered_id msg r)) ss
        ∙ u.0) in
      rw slow (
        rw crowded (
          ap (delete_ids (slow_ids ss)) (delete_first s (map (offered msg) ss) ∙ others_kept)
          ∙ delete_slow_ids msg ss u.1))
  | inr fast ↦
      let room : has_room s ≡ true = ground (arith, fast) in
      rw fast (
        rw room (
          delete_ids_skip (received msg s) (slow_ids ss) (map (offered msg) ss)
            (slow_absent s.id ss u.0)
          ∙ ap (λ x. received msg s ∷ x) (delete_slow_ids msg ss u.1)))
]

members_of-offered :
    (w : String) (msg : WsMessage) (groups : List Group)
    → members_of w
        (update (is_group w) (λ g. record g { members = map (offered msg) g.members }) groups)
      ≡ map (offered msg) (members_of w groups)
unfolding members_of
members_of-offered w msg groups =
    rw
      (find-update (is_group w) (λ g. record g { members = map (offered msg) g.members })
        (λ r. refl) (is_group w) groups)
      (elim (Option-cases (find (is_group w) groups)) [
        | inl missing ↦ rw missing refl
        | inr (g, found) ↦ rw found (rw (find_sound (is_group w) groups found) refl)
      ])

-- Where no two subscribers of the workspace have one number, a published message becomes the last of
-- the buffer of each subscriber that has room, and the others are unsubscribed.
pub members_of-publish :
    (w : String) (msg : WsMessage) (h : Hub)
    → AllDistinct (members_of w h.groups)
    → members_of w (publish w msg h).groups
      ≡ map (received msg) (select has_room (members_of w h.groups))
unfolding publish
members_of-publish w msg h u =
    members_of-unsubscribe_all w (slow_ids (members_of w h.groups)) _
    ∙ ap (delete_ids (slow_ids (members_of w h.groups))) (members_of-offered w msg h.groups)
    ∙ delete_slow_ids msg (members_of w h.groups) u
