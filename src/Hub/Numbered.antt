-- ===== src/Hub/Numbered.antt =====
-- The numbers that the hub (internal/server/hub/hub.go) has given to its subscribers.
use mathlib.Core.Path.{subst}
use syna.Prelude.{
  ℕ, suc, ◌<◌, String, ◌≡◌, Bool, Option, none, some, List, [], ◌∷◌, map, arith, All, Bool-cases,
  inl, inr,
}
use syna.Table.{find, any, select, update, delete}
use syna.Hub.Defs.{
  Subscriber, Group, Hub, WsMessage, new_hub, is_group, is_member, is_full, is_slow, joined,
  members_of, offered, has_room, without, subscribe, unsubscribe, unsubscribe_all, publish,
}

-- the hubs that calls in any order lead to
pub data HubReach : Hub → Type 0 where
  starts : (max_per_ws : ℕ) → HubReach (new_hub max_per_ws)
  subscribes :
      (w : String) (h : Hub) (accepted : Hub × ℕ)
      → HubReach h
      → subscribe w h ≡ some accepted
      → HubReach accepted.0
  unsubscribes : (w : String) (id : ℕ) (h : Hub) → HubReach h → HubReach (unsubscribe w id h)
  publishes : (w : String) (msg : WsMessage) (h : Hub) → HubReach h → HubReach (publish w msg h)

abbrev pub AllBelow : ℕ → List Subscriber → Type 0
AllBelow n members = All (λ (s : Subscriber). s.id < n) members

abbrev pub AreNumbered : ℕ → List Group → Type 0
AreNumbered n groups = All (λ (g : Group). AllBelow n g.members) groups

AllBelow-suc : (n : ℕ) (members : List Subscriber) → AllBelow n members → AllBelow (suc n) members
AllBelow-suc n [] h = tt
AllBelow-suc n (s ∷ ss) h = (omega (arith, h.0), AllBelow-suc n ss h.1)

AreNumbered-suc : (n : ℕ) (groups : List Group) → AreNumbered n groups → AreNumbered (suc n) groups
AreNumbered-suc n [] h = tt
AreNumbered-suc n (g ∷ gs) h = (AllBelow-suc n g.members h.0, AreNumbered-suc n gs h.1)

All-delete :
    {A : Type 0} (P : A → Type 0) (p : A → Bool) (xs : List A) → All P xs → All P (delete p xs)
unfolding delete
All-delete P p [] h = tt
All-delete P p (x ∷ xs) h = elim (Bool-cases (p x)) [
  | inl goes ↦ rw goes (All-delete P p xs h.1)
  | inr stays ↦ rw stays (h.0, All-delete P p xs h.1)
]

All-update :
    {A : Type 0} (P : A → Type 0) (p : A → Bool) (f : A → A) (xs : List A)
    → ((x : A) → P x → P (f x))
    → All P xs
    → All P (update p f xs)
unfolding update
All-update P p f [] keeps h = tt
All-update P p f (x ∷ xs) keeps h = elim (Bool-cases (p x)) [
  | inl own ↦ rw own (keeps x h.0, All-update P p f xs keeps h.1)
  | inr other ↦ rw other (h.0, All-update P p f xs keeps h.1)
]

AllBelow-members_of :
    (n : ℕ) (w : String) (groups : List Group)
    → AreNumbered n groups
    → AllBelow n (members_of w groups)
unfolding members_of find
AllBelow-members_of n w [] h = tt
AllBelow-members_of n w (g ∷ gs) h = elim (Bool-cases (is_group w g)) [
  | inl own ↦ rw own h.0
  | inr other ↦ rw other (AllBelow-members_of n w gs h.1)
]

AreNumbered-without :
    (n : ℕ) (w : String) (rest : List Subscriber) (groups : List Group)
    → AllBelow n rest
    → AreNumbered n groups
    → AreNumbered n (without w rest groups)
AreNumbered-without n w [] groups small h =
    All-delete (λ (g : Group). AllBelow n g.members) (is_group w) groups h
AreNumbered-without n w (s ∷ rest) groups small h =
    All-update (λ (g : Group). AllBelow n g.members) (is_group w)
      (λ g. record g { members = s ∷ rest }) groups (λ g was. small) h

-- every subscriber has a number below the next one
abbrev pub IsNumbered : Hub → Type 0
IsNumbered h = AreNumbered h.next_id h.groups

unsubscribe-IsNumbered :
    (w : String) (id : ℕ) (h : Hub) → IsNumbered h → IsNumbered (unsubscribe w id h)
unfolding unsubscribe
unsubscribe-IsNumbered w id h u = elim (Bool-cases (any (is_member id) (members_of w h.groups))) [
  | inl here ↦ rw here (
      AreNumbered-without h.next_id w (delete (is_member id) (members_of w h.groups)) h.groups
        (All-delete (λ (s : Subscriber). s.id < h.next_id) (is_member id) (members_of w h.groups)
          (AllBelow-members_of h.next_id w h.groups u))
        u)
  | inr absent ↦ rw absent u
]

unsubscribe_all-IsNumbered :
    (w : String) (ids : List ℕ) (h : Hub) → IsNumbered h → IsNumbered (unsubscribe_all w ids h)
unfolding unsubscribe_all
unsubscribe_all-IsNumbered w [] h u = u
unsubscribe_all-IsNumbered w (id ∷ ids) h u =
    unsubscribe_all-IsNumbered w ids (unsubscribe w id h) (unsubscribe-IsNumbered w id h u)

AllBelow-offered :
    (n : ℕ) (msg : WsMessage) (members : List Subscriber)
    → AllBelow n members
    → AllBelow n (map (offered msg) members)
AllBelow-offered n msg [] h = tt
AllBelow-offered n msg (s ∷ ss) h = elim (Bool-cases (has_room s)) [
  | inl room ↦ rw room (h.0, AllBelow-offered n msg ss h.1)
  | inr full ↦ rw full (h.0, AllBelow-offered n msg ss h.1)
]

publish-IsNumbered :
    (w : String) (msg : WsMessage) (h : Hub) → IsNumbered h → IsNumbered (publish w msg h)
unfolding publish
publish-IsNumbered w msg h u =
    unsubscribe_all-IsNumbered w (map (λ s. s.id) (select is_slow (members_of w h.groups))) _ (
      All-update (λ (g : Group). AllBelow h.next_id g.members) (is_group w)
        (λ g. record g { members = map (offered msg) g.members }) h.groups
        (λ g was. AllBelow-offered h.next_id msg g.members was) u)

abbrev Accepts : Option (Hub × ℕ) → Type 0
Accepts none = Unit
Accepts (some a) = IsNumbered a.0

subscribe-Accepts : (w : String) (h : Hub) → IsNumbered h → Accepts (subscribe w h)
unfolding subscribe
subscribe-Accepts w h u = elim (Bool-cases (is_full h.max_per_ws (find (is_group w) h.groups))) [
  | inl full ↦ rw full tt
  | inr free ↦
      let later = AreNumbered-suc h.next_id h.groups u in
      rw free (elim (Bool-cases (any (is_group w) h.groups)) [
        | inl there ↦ rw there (
            All-update (λ (g : Group). AllBelow (suc h.next_id) g.members) (is_group w)
              (joined (record { id = h.next_id; buffer = [] })) h.groups
              (λ g was. (omega arith, was)) later)
        | inr missing ↦ rw missing ((omega arith, tt), later)
      ])
]

-- In a hub that calls have led to every subscriber has a number below the next one.
pub HubReach-IsNumbered : (h : Hub) → HubReach h → IsNumbered h
HubReach-IsNumbered h (starts max_per_ws) = tt
HubReach-IsNumbered h (subscribes w before accepted r e) =
    subst Accepts e (subscribe-Accepts w before (HubReach-IsNumbered before r))
HubReach-IsNumbered h (unsubscribes w id before r) =
    unsubscribe-IsNumbered w id before (HubReach-IsNumbered before r)
HubReach-IsNumbered h (publishes w msg before r) =
    publish-IsNumbered w msg before (HubReach-IsNumbered before r)
