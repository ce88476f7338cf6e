-- ===== src/Websocket/Hub.antt =====
-- internal/dbserver/websocket/hub.go. A client is the number that stands for its pointer. A set of
-- clients, `map[*Client]bool`, is the list of those mapped to true: the program stores nothing else.
-- The `Send` channels are a store beside the hub, since a client that the hub dropped keeps its
-- channel. A method returns the hub after it, or `none` for a panic. One goroutine runs all methods
-- but `GetStats`; the reader of a channel is `drain`.
use triggerx_backend.Prelude.{
  ℕ, ◌+◌, ◌-◌, Bool, true, Option, none, some, List, [], ◌∷◌, ltb, if◌then◌else◌, ite, ℕ_discrete,
  length, map,
}
use triggerx_backend.Prelude.Maps.{get, put, delete, contains, insert, remove}
use triggerx_backend.Websocket.Rooms.{Text, Text-discrete, TaskEventData, event_rooms}

abbrev pub send_capacity : ℕ
send_capacity = 256

pub record Channel : Type 0 where
  pub queued : ℕ
  pub closed : Bool

abbrev pub Rooms : Type 0
Rooms = List (Text × List ℕ)

pub record Hub : Type 0 where
  pub clients : List ℕ
  pub rooms : Rooms
  pub sends : ℕ → Channel

abbrev pub set_channel : Hub → ℕ → Channel → Hub
set_channel h c ch = record h { sends = λ d. ite (ℕ_discrete c d) ch (h.sends d) }

-- `close(client.Send)` panics on a closed channel.
abbrev pub close_send : Hub → ℕ → Option Hub
close_send h c =
    if (h.sends c).closed
    then none
    else some (set_channel h c (record (h.sends c) { closed = true }))

unfoldable pub register_client : Hub → ℕ → Hub
register_client h c = record h { clients = insert ℕ_discrete c h.clients }

-- The set of a room, or no room where it became empty.
abbrev pub kept : Text → List ℕ → Rooms → Rooms
kept room [] rooms = rooms
kept room (c ∷ cs) rooms = (room, c ∷ cs) ∷ rooms

unfoldable pub leave_all : ℕ → Rooms → Rooms
leave_all c [] = []
leave_all c ((room, s) ∷ rooms) =
    let rest = leave_all c rooms in
    if contains ℕ_discrete c s then kept room (remove ℕ_discrete c s) rest else (room, s) ∷ rest

unfoldable pub unregister_client : Hub → ℕ → Option Hub
unregister_client h c =
    if contains ℕ_discrete c h.clients
    then close_send
        (record h { clients = remove ℕ_discrete c h.clients; rooms = leave_all c h.rooms }) c
    else some h

abbrev pub members : Text → Rooms → List ℕ
members room rooms = elim (get Text-discrete room rooms) [ none ↦ [] | some s ↦ s ]

unfoldable pub subscribe_to_room : Hub → ℕ → Text → Hub
subscribe_to_room h c room = record h {
  rooms = put Text-discrete room (insert ℕ_discrete c (members room h.rooms)) h.rooms;
}

abbrev pub store_room : Text → List ℕ → Rooms → Rooms
store_room room [] rooms = delete Text-discrete room rooms
store_room room (c ∷ cs) rooms = put Text-discrete room (c ∷ cs) rooms

unfoldable pub unsubscribe_from_room : Hub → ℕ → Text → Hub
unsubscribe_from_room h c room = elim (get Text-discrete room h.rooms) [
  | none ↦ h
  | some s ↦ record h { rooms = store_room room (remove ℕ_discrete c s) h.rooms }
]

-- The `select` of the broadcast: a send on a closed channel panics; one on a full channel takes the
-- default, which closes the channel and drops the client by `drop`.
unfoldable pub deliver : (Hub → ℕ → Hub) → Hub → ℕ → Option Hub
deliver drop h c =
    if (h.sends c).closed
    then none
    else if ltb (h.sends c).queued send_capacity
    then some (set_channel h c (record (h.sends c) { queued = (h.sends c).queued + 1 }))
    else some (drop (set_channel h c (record (h.sends c) { closed = true })) c)

unfoldable pub deliver_all : (Hub → ℕ → Hub) → List ℕ → Hub → Option Hub
deliver_all drop [] h = some h
deliver_all drop (c ∷ cs) h = elim (deliver drop h c) [
  | none ↦ none
  | some h' ↦ deliver_all drop cs h'
]

abbrev pub drop_client : Hub → ℕ → Hub
drop_client h c = record h { clients = remove ℕ_discrete c h.clients }

-- `delete(h.clients, client)` and `delete(clients, client)`: the room's set stays, even empty.
abbrev pub drop_from : Text → Hub → ℕ → Hub
drop_from room h c = record h {
  clients = remove ℕ_discrete c h.clients;
  rooms = put Text-discrete room (remove ℕ_discrete c (members room h.rooms)) h.rooms;
}

unfoldable pub broadcast_room : Text → Hub → Option Hub
broadcast_room room h = elim (get Text-discrete room h.rooms) [
  | none ↦ some h
  | some s ↦ deliver_all (drop_from room) s h
]

unfoldable pub broadcast_rooms : List Text → Hub → Option Hub
broadcast_rooms [] h = some h
broadcast_rooms (room ∷ rest) h = elim (broadcast_room room h) [
  | none ↦ none
  | some h' ↦ broadcast_rooms rest h'
]

unfoldable pub broadcast_to_rooms : Hub → List Text → Option Hub
unfolding broadcast_rooms
broadcast_to_rooms h [] = deliver_all drop_client h.clients h
broadcast_to_rooms h (room ∷ rooms) = broadcast_rooms (room ∷ rooms) h

-- The event is put on the channel of broadcasts, and the hub's loop takes it from there.
unfoldable pub broadcast_task_event : Hub → TaskEventData → Option Hub
broadcast_task_event h e = broadcast_to_rooms h (event_rooms e)

-- client.go, `Client.sendMessage`: a reply to the client itself. On a full channel it closes the
-- client (`Client.Close`) and tells the hub nothing.
unfoldable pub send_message : Hub → ℕ → Option Hub
unfolding deliver
send_message = deliver (λ h c. h)

-- `Shutdown` closes every client.
unfoldable pub close_clients : List ℕ → Hub → Option Hub
close_clients [] h = some h
close_clients (c ∷ cs) h = elim (close_send h c) [ none ↦ none | some h' ↦ close_clients cs h' ]

unfoldable pub shutdown : Hub → Option Hub
unfolding close_clients
shutdown h = close_clients h.clients h

-- `WritePump` takes a message out.
unfoldable pub drain : Hub → ℕ → Hub
drain h c = set_channel h c (record (h.sends c) { queued = (h.sends c).queued - 1 })

pub record Stats : Type 0 where
  pub total_clients : ℕ
  pub total_rooms : ℕ
  pub rooms : List (Text × ℕ)

unfoldable pub get_stats : Hub → Stats
get_stats h = record {
  total_clients = length h.clients;
  total_rooms = length h.rooms;
  rooms = map (λ r. (r.0, length r.1)) h.rooms;
}

-- The select of the main loop, one case to a call.
pub data Request : Type 0 where
  register unregister : ℕ → Request
  subscribe unsubscribe : ℕ → Text → Request
  broadcast : List Text → Request
  reply read : ℕ → Request

unfoldable pub step : Hub → Request → Option Hub
step h (register c) = some (register_client h c)
step h (unregister c) = unregister_client h c
step h (subscribe c room) = some (subscribe_to_room h c room)
step h (unsubscribe c room) = some (unsubscribe_from_room h c room)
step h (broadcast rooms) = broadcast_to_rooms h rooms
step h (reply c) = send_message h c
step h (read c) = some (drain h c)
