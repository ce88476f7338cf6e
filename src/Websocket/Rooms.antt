-- ===== src/Websocket/Rooms.antt =====
-- internal/dbserver/websocket: the rooms of a task event (hub.go) and the access to a room
-- (client.go). A text is the list of its code points; the texts of the program are ASCII, so a code
-- point is a byte.
unfoldable pub use triggerx_backend.Prelude.Texts.{Text, text, text_eq, Text-discrete}
use triggerx_backend.Prelude.{
  ℕ, ◌%◌, Bool, true, false, ◌||◌, ◌&&◌, Option, none, some, List, [], ◌∷◌, ◌++◌, length, ltb, leb,
  ◌==◌, if◌then◌else◌,
}

-- `string(rune(id))` of an int64 given by its 64 bits: the low 32 bits are read as a signed number,
-- and what is no code point becomes U+FFFD.
unfoldable pub rune_text : ℕ → Text
rune_text id =
    let r = id % 4294967296 in
    if leb 0x110000 r || leb 0xD800 r && ltb r 0xE000 then 0xFFFD ∷ [] else r ∷ []

pub record TaskEventData : Type 0 where
  pub task_id : ℕ
  pub job_id : Text
  pub user_id : Text

-- The rooms that `broadcastTaskEvent` chooses.
unfoldable pub event_rooms : TaskEventData → List Text
event_rooms e =
    let job_rooms = (text "task:" ++ rune_text e.task_id) ∷ (text "job:" ++ e.job_id) ∷ [] in
    if e.task_id == 0
    then []
    else (elim e.user_id [ [] ↦ job_rooms | u ∷ us ↦ job_rooms ++ (text "user:" ++ u ∷ us) ∷ [] ])

-- `room[:5]`, which panics (`none`) where the room is shorter.
unfoldable pub first_five : Text → Option Text
first_five (a ∷ b ∷ c ∷ d ∷ e ∷ rest) = some (a ∷ b ∷ c ∷ d ∷ e ∷ [])
first_five _ = none

-- `validateRoomAccess`: the client's user, the room, and the `user_id` of the request's data, `none`
-- where that is no text. The result `none` is a panic.
unfoldable pub validate_room_access : Text → Text → Option Text → Option Bool
unfolding first_five text_eq
validate_room_access client_user room user_id =
    if ltb (length room) 3 then some false else elim (first_five room) [
      | none ↦ none
      | some prefix ↦
          if text_eq prefix (text "user:")
          then (elim user_id [
            | none ↦ some false
            | some [] ↦ some false
            | some (u ∷ us) ↦ some (text_eq client_user (u ∷ us))
          ])
          else some true
    ]
