-- ===== src/Websocket/Invariant.antt =====
-- The open channels of the hub, and what a broadcast delivers.
use triggerx_backend.Prelude.{
  ℕ, ◌≡◌, refl, Bool, true, false, none, some, List, [], ◌∷◌, arith, if◌then◌else◌, ite, ℕ_discrete,
  Bool-cases, inl, inr, Option-cases,
}
use triggerx_backend.Prelude.Maps.{
  get, contains, insert, remove, get-put, get-delete, contains-insert, contains-remove, Distinct,
  put-Distinct, delete-Distinct,
}
use triggerx_backend.Websocket.Rooms.{Text, Text-discrete}
use triggerx_backend.Websocket.Hub.{
  Hub, Rooms, set_channel, members, kept, leave_all, store_room, register_client, unregister_client,
  subscribe_to_room, unsubscribe_from_room, drop_client, drop_from, deliver_all, broadcast_rooms,
  broadcast_room, broadcast_to_rooms, drain, Request, step,
}
use triggerx_backend.Websocket.Channels.{Fresh, Open, delivered, deliver_all-sends}

-- Every client that the hub or a room holds has an open channel.
pub record IsValid (h : Hub) : Type 0 where
  pub open_clients : Open h.sends h.clients
  pub open_rooms : (room : Text) → Open h.sends (members room h.rooms)
  pub rooms_distinct : Distinct Text-discrete h.rooms

-- A broadcast to everyone, on a hub whose clients have open channels and stand once, does not
-- panic; each client's channel gets the message, or is closed if it was full, and no other channel
-- changes.
pub broadcast_everyone :
    (h : Hub)
    → Fresh h.clients
    → Open h.sends h.clients
    → (h' : Hub) × (broadcast_to_rooms h [] ≡ some h')
      × ((d : ℕ)
          → h'.sends d
            ≡ (if contains ℕ_discrete d h.clients then delivered (h.sends d) else h.sends d))
unfolding broadcast_to_rooms
broadcast_everyone h f o = deliver_all-sends drop_client (λ g c. refl) h.clients h f o

pub broadcast_room-members :
    (room : Text) (h : Hub)
    → broadcast_room room h ≡ deliver_all (drop_from room) (members room h.rooms) h
unfolding broadcast_room deliver_all
broadcast_room-members room h = ground arith

-- A broadcast to one room, on a hub where the members of the room have open channels and stand
-- once, does not panic; each member's channel gets the message, or is closed if it was full, and
-- no other channel changes. A room that does not exist has no members.
pub broadcast_one_room :
    (h : Hub) (room : Text)
    → Fresh (members room h.rooms)
    → Open h.sends (members room h.rooms)
    → (h' : Hub) × (broadcast_to_rooms h (room ∷ []) ≡ some h')
      × ((d : ℕ)
          → h'.sends d ≡ (
              if contains ℕ_discrete d (members room h.rooms)
              then delivered (h.sends d)
              else h.sends d))
unfolding broadcast_to_rooms
broadcast_one_room h room f o =
    let (h', sent, sends) =
      deliver_all-sends (drop_from room) (λ g c. refl) (members room h.rooms) h f o in
    (h', rw (broadcast_rooms, broadcast_room-members room h, sent) refl, sends)

leave_all-none :
    (c : ℕ) (room : Text) (rooms : Rooms)
    → get Text-discrete room rooms ≡ none
    → get Text-discrete room (leave_all c rooms) ≡ none
unfolding leave_all get
leave_all-none c room [] e = refl
leave_all-none c room ((r, s) ∷ rooms) e =
    go (remove ℕ_discrete c s) refl (λ h. leave_all-none c room rooms h)
  where
    go :
        (t : List ℕ)
        → remove ℕ_discrete c s ≡ t
        → (get Text-discrete room rooms ≡ none → get Text-discrete room (leave_all c rooms) ≡ none)
        → get Text-discrete room (leave_all c ((r, s) ∷ rooms)) ≡ none
    go [] q ih = ground arith
    go (x ∷ t) q ih = ground arith

-- After `leave_all` a room has its members but the one who left.
leave_all-members :
    (c d : ℕ) (room : Text) (rooms : Rooms)
    → Distinct Text-discrete rooms
    → contains ℕ_discrete d (members room (leave_all c rooms))
      ≡ ite (ℕ_discrete c d) false (contains ℕ_discrete d (members room rooms))
unfolding leave_all get contains
leave_all-members c d room [] n = ground arith
leave_all-members c d room ((r, s) ∷ rooms) n =
    go (remove ℕ_discrete c s) refl (leave_all-members c d room rooms n.1)
  where
    go :
        (t : List ℕ)
        → remove ℕ_discrete c s ≡ t
        → contains ℕ_discrete d (members room (leave_all c rooms))
          ≡ ite (ℕ_discrete c d) false (contains ℕ_discrete d (members room rooms))
        → contains ℕ_discrete d (members room (leave_all c ((r, s) ∷ rooms)))
          ≡ ite (ℕ_discrete c d) false (contains ℕ_discrete d (members room ((r, s) ∷ rooms)))
    go [] q ih = ground (arith, leave_all-none c room rooms, contains-remove ℕ_discrete c d s)
    go (x ∷ t) q ih = ground (arith, leave_all-none c room rooms, contains-remove ℕ_discrete c d s)

register_client-IsValid :
    (h : Hub) (c : ℕ) → (h.sends c).closed ≡ false → IsValid h → IsValid (register_client h c)
unfolding register_client
register_client-IsValid h c o v = record {
  open_clients = λ d m. ground (arith, contains-insert ℕ_discrete c d h.clients, v.open_clients d);
  open_rooms = v.open_rooms;
  rooms_distinct = v.rooms_distinct;
}

subscribe_to_room-IsValid :
    (h : Hub) (c : ℕ) (room : Text)
    → (h.sends c).closed ≡ false
    → IsValid h
    → IsValid (subscribe_to_room h c room)
unfolding subscribe_to_room
subscribe_to_room-IsValid h c room o v = record {
  open_clients = v.open_clients;
  open_rooms = λ r d m. ground (
    arith,
    get-put Text-discrete room r (insert ℕ_discrete c (members room h.rooms)) h.rooms,
    contains-insert ℕ_discrete c d (members room h.rooms),
    v.open_rooms r d,
    v.open_rooms room d,
  );
  rooms_distinct = put-Distinct Text-discrete room _ h.rooms v.rooms_distinct;
}

leave_all-Distinct :
    (c : ℕ) (rooms : Rooms)
    → Distinct Text-discrete rooms
    → Distinct Text-discrete (leave_all c rooms)
unfolding leave_all get
leave_all-Distinct c [] n = tt
leave_all-Distinct c ((r, s) ∷ rooms) n =
    go (contains ℕ_discrete c s) (remove ℕ_discrete c s) (leave_all-none c r rooms n.0)
      (leave_all-Distinct c rooms n.1)
  where
    go :
        (b : Bool) (t : List ℕ)
        → get Text-discrete r (leave_all c rooms) ≡ none
        → Distinct Text-discrete (leave_all c rooms)
        → Distinct Text-discrete
            (if b then kept r t (leave_all c rooms) else (r, s) ∷ leave_all c rooms)
    go true [] e d = d
    go true (x ∷ t) e d = (e, d)
    go false t e d = (e, d)

-- The hub without the client, its channel closed.
unregistered : Hub → ℕ → Hub
unregistered h c =
    set_channel (record h { clients = remove ℕ_discrete c h.clients; rooms = leave_all c h.rooms })
      c (record (h.sends c) { closed = true })

unregister_client-IsValid :
    (h : Hub) (c : ℕ) → IsValid h → (h' : Hub) × (unregister_client h c ≡ some h') × IsValid h'
unfolding unregister_client
unregister_client-IsValid h c v = elim (Bool-cases (contains ℕ_discrete c h.clients)) [
  | inr absent ↦ (h, rw absent refl, v)
  | inl present ↦
      (unregistered h c, unfold unregistered in rw (present, v.open_clients c present) refl, gone)
]
  where
    gone : IsValid (unregistered h c)
    gone =
        unfold unregistered in
        record {
          open_clients =
              λ d m. ground (arith, contains-remove ℕ_discrete c d h.clients, v.open_clients d);
          open_rooms = λ r d m.
              ground (arith, leave_all-members c d r h.rooms v.rooms_distinct, v.open_rooms r d);
          rooms_distinct = leave_all-Distinct c h.rooms v.rooms_distinct;
        }

store_room-members :
    (d : ℕ) (room r : Text) (s : List ℕ) (rooms : Rooms)
    → contains ℕ_discrete d (members r (store_room room s rooms))
      ≡ ite
          (Text-discrete room r)
          (contains ℕ_discrete d s)
          (contains ℕ_discrete d (members r rooms))
unfolding contains
store_room-members d room r [] rooms = ground (arith, get-delete Text-discrete room r rooms)
store_room-members d room r (x ∷ s) rooms =
    ground (arith, get-put Text-discrete room r (x ∷ s) rooms)

store_room-Distinct :
    (room : Text) (s : List ℕ) (rooms : Rooms)
    → Distinct Text-discrete rooms
    → Distinct Text-discrete (store_room room s rooms)
store_room-Distinct room [] rooms n = delete-Distinct Text-discrete room rooms n
store_room-Distinct room (x ∷ s) rooms n = put-Distinct Text-discrete room (x ∷ s) rooms n

unsubscribe_from_room-IsValid :
    (h : Hub) (c : ℕ) (room : Text) → IsValid h → IsValid (unsubscribe_from_room h c room)
unfolding unsubscribe_from_room
unsubscribe_from_room-IsValid h c room v = elim (Option-cases (get Text-discrete room h.rooms)) [
  | inl e ↦ rw (e, unsubscribe_from_room) v
  | inr (s, e) ↦
      rw (e, unsubscribe_from_room)
        (record {
          open_clients = v.open_clients;
          open_rooms = λ r d m. ground (
            arith,
            store_room-members d room r (remove ℕ_discrete c s) h.rooms,
            contains-remove ℕ_discrete c d s,
            v.open_rooms r d,
            v.open_rooms room d,
          );
          rooms_distinct = store_room-Distinct room _ h.rooms v.rooms_distinct;
        })
]

drain-IsValid : (h : Hub) (c : ℕ) → IsValid h → IsValid (drain h c)
unfolding drain
drain-IsValid h c v = record {
  open_clients = λ d m. ground (arith, v.open_clients d m);
  open_rooms = λ r d m. ground (arith, v.open_rooms r d m);
  rooms_distinct = v.rooms_distinct;
}

-- A request that puts no message on a channel, by a client whose channel is open where it enters
-- the hub or a room.
pub data IsQuiet (h : Hub) : Request → Type 0 where
  registers : (c : ℕ) → (h.sends c).closed ≡ false → IsQuiet h (Request.register c)
  unregisters : (c : ℕ) → IsQuiet h (Request.unregister c)
  subscribes :
      (c : ℕ) (room : Text) → (h.sends c).closed ≡ false → IsQuiet h (Request.subscribe c room)
  unsubscribes : (c : ℕ) (room : Text) → IsQuiet h (Request.unsubscribe c room)
  reads : (c : ℕ) → IsQuiet h (Request.read c)

-- On a valid hub, a request that puts no message on a channel, and by which no client with a closed
-- channel enters the hub or a room, does not panic, and the hub stays valid: a client that leaves,
-- in particular, leaves every room.
pub step-IsValid :
    (h : Hub) {r : Request}
    → IsQuiet h r
    → IsValid h
    → (h' : Hub) × (step h r ≡ some h') × IsValid h'
unfolding step
step-IsValid h (registers c o) v = (register_client h c, refl, register_client-IsValid h c o v)
step-IsValid h (unregisters c) v = unregister_client-IsValid h c v
step-IsValid h (subscribes c room o) v =
    (subscribe_to_room h c room, refl, subscribe_to_room-IsValid h c room o v)
step-IsValid h (unsubscribes c room) v =
    (unsubscribe_from_room h c room, refl, unsubscribe_from_room-IsValid h c room v)
step-IsValid h (reads c) v = (drain h c, refl, drain-IsValid h c v)
