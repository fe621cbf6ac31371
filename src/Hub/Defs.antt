-- ===== src/Hub/Defs.antt =====
-- internal/server/hub/hub.go: `Subscribe`, `Unsubscribe` and `Publish`. A pointer to a subscriber is
-- its number, a channel the list of the messages in its buffer, the oldest first. The mutex makes
-- `Subscribe` and `Unsubscribe` one step each. `Publish` releases it between its offers and the
-- `Unsubscribe` of each slow subscriber; here it is one step, with no other call between them.
-- `maxPerWS` below 0 does what 0 does.
use syna.Prelude.{
  ℕ, suc, String, str_eq, ◌==◌, Bool, false, Option, none, some, List, [], ◌∷◌, ◌++◌, map, leb, ltb,
  if◌then◌else◌, length,
}
use syna.Table.{find, any, select, update, delete}
use syna.Protocol.{EventRecord}

-- protocol.WSMessage
pub record WsMessage : Type 0 where
  pub type : String
  pub event : Option EventRecord
  pub server_time : Option ℕ

pub record Subscriber : Type 0 where
  pub id : ℕ
  pub buffer : List WsMessage

-- the entry of a workspace in the map `subscribers`
pub record Group : Type 0 where
  pub workspace_id : String
  pub members : List Subscriber

pub record Hub : Type 0 where
  pub max_per_ws : ℕ
  pub next_id : ℕ
  pub groups : List Group
  -- the subscribers whose channel is closed
  pub closed : List ℕ

-- the capacity of a channel
abbrev pub capacity : ℕ
capacity = 32

abbrev pub new_hub : ℕ → Hub
new_hub max_per_ws = record { max_per_ws = max_per_ws; next_id = 0; groups = []; closed = [] }

abbrev pub is_group : String → Group → Bool
is_group workspace_id g = str_eq g.workspace_id workspace_id

abbrev pub is_member : ℕ → Subscriber → Bool
is_member id s = s.id == id

abbrev pub members_in : Option Group → List Subscriber
members_in none = []
members_in (some g) = g.members

-- the entry of a workspace in the map, empty where it has none
unfoldable pub members_of : String → List Group → List Subscriber
members_of workspace_id groups = members_in (find (is_group workspace_id) groups)

-- has the workspace an entry with as many subscribers as it may have?
abbrev pub is_full : ℕ → Option Group → Bool
is_full max_per_ws none = false
is_full max_per_ws (some g) = leb max_per_ws (length g.members)

abbrev pub joined : Subscriber → Group → Group
joined s g = record g { members = s ∷ g.members }

-- the hub with the number of the new subscriber; `none` at the limit
unfoldable pub subscribe : String → Hub → Option (Hub × ℕ)
subscribe workspace_id h =
    let s : Subscriber = record { id = h.next_id; buffer = [] } in
    if is_full h.max_per_ws (find (is_group workspace_id) h.groups)
    then none
    else some (
      record h {
        next_id = suc h.next_id;
        groups =
            if any (is_group workspace_id) h.groups
            then update (is_group workspace_id) (joined s) h.groups
            else record { workspace_id = workspace_id; members = s ∷ [] } ∷ h.groups;
      },
      h.next_id,
    )

-- the entry without the subscriber; an entry that gets empty goes
abbrev pub without : String → List Subscriber → List Group → List Group
without workspace_id [] groups = delete (is_group workspace_id) groups
without workspace_id rest groups =
    update (is_group workspace_id) (λ g. record g { members = rest }) groups

unfoldable pub unsubscribe : String → ℕ → Hub → Hub
unsubscribe workspace_id id h =
    let members = members_of workspace_id h.groups in
    if any (is_member id) members
    then record h {
      groups = without workspace_id (delete (is_member id) members) h.groups;
      closed = id ∷ h.closed;
    }
    else h

abbrev pub has_room : Subscriber → Bool
has_room s = ltb (length s.buffer) capacity

abbrev pub is_slow : Subscriber → Bool
is_slow s = leb capacity (length s.buffer)

-- a send that does not wait
abbrev pub offered : WsMessage → Subscriber → Subscriber
offered msg s = if has_room s then record s { buffer = s.buffer ++ (msg ∷ []) } else s

unfoldable pub unsubscribe_all : String → List ℕ → Hub → Hub
unsubscribe_all workspace_id [] h = h
unsubscribe_all workspace_id (id ∷ ids) h =
    unsubscribe_all workspace_id ids (unsubscribe workspace_id id h)

unfoldable pub publish : String → WsMessage → Hub → Hub
publish workspace_id msg h =
    let slow = map (λ s. s.id) (select is_slow (members_of workspace_id h.groups)) in
    unsubscribe_all workspace_id slow (record h {
      groups =
          update (is_group workspace_id) (λ g. record g { members = map (offered msg) g.members })
            h.groups;
    })
