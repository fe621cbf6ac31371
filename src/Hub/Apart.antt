-- ===== src/Hub/Apart.antt =====
-- What `Publish` (internal/server/hub/hub.go) does to the subscribers of the other workspaces.
use syna.Prelude.{
  ℕ, String, eq_iff, ◌≡◌, ◌≢◌, refl, ◌∙◌, ap, true, false, List, [], ◌∷◌, map, arith, Bool-cases,
  Option-cases, inl, inr,
}
use syna.Table.{find, any, select, update, delete, find-update, find_sound, find-delete_apart}
use syna.Hub.Defs.{
  WsMessage, Subscriber, Group, Hub, is_group, is_member, is_slow, members_in, members_of, without,
  offered, unsubscribe, unsubscribe_all, publish,
}

module _ (w other : String) (apart : w ≢ other) where
  groups_apart : (g : Group) → is_group other g ≡ true → is_group w g ≡ false
  groups_apart g h = ground (arith, h, eq_iff g.workspace_id other, eq_iff g.workspace_id w, apart)

  members_of-update :
      (members : Group → List Subscriber) (groups : List Group)
      → members_of other (update (is_group w) (λ g. record g { members = members g }) groups)
        ≡ members_of other groups
  unfolding members_of
  members_of-update members groups =
      rw
        (find-update (is_group other) (λ g. record g { members = members g }) (λ r. refl)
          (is_group w) groups)
        (elim (Option-cases (find (is_group other) groups)) [
          | inl missing ↦ rw missing refl
          | inr (g, found) ↦
              rw found (rw (groups_apart g (find_sound (is_group other) groups found)) refl)
        ])

  members_of-without_apart :
      (rest : List Subscriber) (groups : List Group)
      → members_of other (without w rest groups) ≡ members_of other groups
  unfolding members_of
  members_of-without_apart [] groups =
      ap members_in (find-delete_apart (is_group other) (is_group w) groups_apart groups)
  members_of-without_apart (s ∷ rest) groups = members_of-update (λ g. s ∷ rest) groups

  members_of-unsubscribe_apart :
      (id : ℕ) (h : Hub) → members_of other (unsubscribe w id h).groups ≡ members_of other h.groups
  unfolding unsubscribe
  members_of-unsubscribe_apart id h =
      elim (Bool-cases (any (is_member id) (members_of w h.groups))) [
        | inl here ↦
            rw here
              (members_of-without_apart (delete (is_member id) (members_of w h.groups)) h.groups)
        | inr absent ↦ rw absent refl
      ]

  members_of-unsubscribe_all_apart :
      (ids : List ℕ) (h : Hub)
      → members_of other (unsubscribe_all w ids h).groups ≡ members_of other h.groups
  unfolding unsubscribe_all
  members_of-unsubscribe_all_apart [] h = refl
  members_of-unsubscribe_all_apart (id ∷ ids) h =
      members_of-unsubscribe_all_apart ids (unsubscribe w id h) ∙ members_of-unsubscribe_apart id h

  -- A message that is published to one workspace changes neither the subscribers of another nor what
  -- is in their buffers.
  pub members_of-publish_apart :
      (msg : WsMessage) (h : Hub)
      → members_of other (publish w msg h).groups ≡ members_of other h.groups
  unfolding publish
  members_of-publish_apart msg h =
      members_of-unsubscribe_all_apart (map (λ s. s.id) (select is_slow (members_of w h.groups))) _
      ∙ members_of-update (λ g. map (offered msg) g.members) h.groups
