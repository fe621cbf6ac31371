-- ===== src/Hub/Groups.antt =====
-- What `Unsubscribe` (internal/server/hub/hub.go) leaves in the map.
use syna.Prelude.{
  ℕ, String, ◌≡◌, refl, sym, ◌∙◌, ap, Bool, false, none, some, List, [], ◌∷◌, arith, Bool-cases,
  Option-cases, inl, inr,
}
use syna.Table.{find, any, delete, find-update, find-delete_self, find_sound}
use syna.Hub.Defs.{
  Subscriber, Group, Hub, is_group, is_member, members_of, without, unsubscribe, unsubscribe_all,
}

-- the members whose number is none of the list's
abbrev pub delete_ids : List ℕ → List Subscriber → List Subscriber
delete_ids [] members = members
delete_ids (id ∷ ids) members = delete_ids ids (delete (is_member id) members)

pub delete_absent : {A : Type 0} (p : A → Bool) (rs : List A) → any p rs ≡ false → delete p rs ≡ rs
unfolding delete any
delete_absent p [] h = refl
delete_absent p (r ∷ rs) h = ground (arith, delete_absent p rs (ground arith))

missing_member :
    (w : String) (id : ℕ) (groups : List Group)
    → find (is_group w) groups ≡ none
    → any (is_member id) (members_of w groups) ≡ false
unfolding members_of any
missing_member w id groups missing = rw missing refl

members_of-without :
    (w : String) (g : Group) (rest : List Subscriber) (groups : List Group)
    → find (is_group w) groups ≡ some g
    → members_of w (without w rest groups) ≡ rest
unfolding members_of
members_of-without w g [] groups found =
    rw (find-delete_self (is_group w) (is_group w) (λ r h. h) groups) refl
members_of-without w g (s ∷ rest) groups found =
    rw
      (find-update (is_group w) (λ x. record x { members = s ∷ rest }) (λ r. refl) (is_group w)
        groups)
      (rw found (rw (find_sound (is_group w) groups found) refl))

members_of-unsubscribe :
    (w : String) (id : ℕ) (h : Hub)
    → members_of w (unsubscribe w id h).groups ≡ delete (is_member id) (members_of w h.groups)
unfolding unsubscribe
members_of-unsubscribe w id h = elim (Bool-cases (any (is_member id) (members_of w h.groups))) [
  | inl here ↦ rw here (elim (Option-cases (find (is_group w) h.groups)) [
    | inl missing ↦ absurd (ground (arith, here, missing_member w id h.groups missing))
    | inr (g, found) ↦
        members_of-without w g (delete (is_member id) (members_of w h.groups)) h.groups found
  ])
  | inr absent ↦ rw absent (sym (delete_absent (is_member id) (members_of w h.groups) absent))
]

pub members_of-unsubscribe_all :
    (w : String) (ids : List ℕ) (h : Hub)
    → members_of w (unsubscribe_all w ids h).groups ≡ delete_ids ids (members_of w h.groups)
unfolding unsubscribe_all
members_of-unsubscribe_all w [] h = refl
members_of-unsubscribe_all w (id ∷ ids) h =
    members_of-unsubscribe_all w ids (unsubscribe w id h)
    ∙ ap (delete_ids ids) (members_of-unsubscribe w id h)
