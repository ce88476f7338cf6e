-- ===== src/Websocket/Tests.antt =====
-- The hub on concrete clients.
use triggerx_backend.Prelude.{
  ℕ, ◌≡◌, refl, true, false, none, some, [], ◌∷◌, arith, ite, ℕ_discrete, if◌then◌else◌,
}
use triggerx_backend.Prelude.Maps.{get, put, delete, contains, insert, remove}
use triggerx_backend.Websocket.Rooms.{Text, text, Text-discrete, TaskEventData}
use triggerx_backend.Websocket.Hub.{
  Channel, Hub, Request, members, unregister_client, broadcast_to_rooms, broadcast_room, deliver,
  deliver_all, drop_client, send_message, set_channel, step,
}
use triggerx_backend.Websocket.Channels.{delivered}
use triggerx_backend.Websocket.Invariant.{
  IsValid, unregisters, broadcast_everyone, broadcast_one_room, step-IsValid,
}
use triggerx_backend.Websocket.Crash.{
  broadcast_after_everyone, broadcast_two_rooms, unregister-send_message,
}

-- Client 1 reads too slowly; client 2 has room.
abbrev channels : ℕ → Channel
channels c = record { queued = if_slow c; closed = false }
  where
    if_slow : ℕ → ℕ
    if_slow c = ite (ℕ_discrete c 1) 256 0

abbrev task_room : Text
task_room = text "task:7"

abbrev job_room : Text
job_room = text "job:9"

abbrev hub : Hub
hub = record {
  clients = 1 ∷ 2 ∷ [];
  rooms = (task_room, 1 ∷ 2 ∷ []) ∷ (job_room, 1 ∷ []) ∷ [];
  sends = channels;
}

program : Unit {0}
unfolding get contains remove put delete insert ℕ_discrete Text-discrete broadcast_to_rooms
    broadcast_room deliver deliver_all
program = tt

hub-IsValid : IsValid hub
unfolding get
hub-IsValid = record {
  open_clients = λ c m. refl;
  open_rooms = λ r c m. refl;
  rooms_distinct = ground arith;
}

broadcast_everyone_example :
    (h' : Hub) × (broadcast_to_rooms hub [] ≡ some h')
    × ((d : ℕ)
        → h'.sends d
          ≡ (if contains ℕ_discrete d (1 ∷ 2 ∷ []) then delivered (channels d) else channels d))
unfolding program
broadcast_everyone_example = broadcast_everyone hub (refl, (refl, tt)) (λ c m. refl)

broadcast_one_room_example :
    (h' : Hub) × (broadcast_to_rooms hub (task_room ∷ []) ≡ some h')
    × ((d : ℕ)
        → h'.sends d ≡ (
            if contains ℕ_discrete d (members task_room hub.rooms)
            then delivered (channels d)
            else channels d))
unfolding program
broadcast_one_room_example = broadcast_one_room hub task_room (refl, (refl, tt)) (λ c m. refl)

step-IsValid_example : (h' : Hub) × (step hub (Request.unregister 1) ≡ some h') × IsValid h'
step-IsValid_example = step-IsValid hub (unregisters 1) hub-IsValid

abbrev after_all : Hub
after_all =
    drop_client
      (set_channel (set_channel hub 1 (record { queued = 256; closed = true })) 2
        (record { queued = 1; closed = false }))
      1

after_all_lem : broadcast_to_rooms hub [] ≡ some after_all
unfolding program
after_all_lem = refl

broadcast_after_everyone_example : broadcast_to_rooms after_all (job_room ∷ []) ≡ none
unfolding program
broadcast_after_everyone_example =
    broadcast_after_everyone hub after_all 1 job_room refl refl refl after_all_lem

broadcast_two_rooms_example : broadcast_to_rooms hub (task_room ∷ job_room ∷ []) ≡ none
unfolding program
broadcast_two_rooms_example =
    broadcast_two_rooms hub 1 task_room job_room [] (λ e. ground arith) refl refl refl

abbrev replied : Hub
replied = set_channel hub 1 (record { queued = 256; closed = true })

unregister-send_message_example : unregister_client replied 1 ≡ none
unfolding program send_message
unregister-send_message_example = unregister-send_message hub replied 1 refl refl refl

abbrev event : TaskEventData
event = record { task_id = 2000000; job_id = text "9"; user_id = [] }
