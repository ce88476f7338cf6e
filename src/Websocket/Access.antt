-- ===== src/Websocket/Access.antt =====
-- What the rooms of an event and the access check of a room come to.
use triggerx_backend.Prelude.{
  ℕ, ◌≤◌, ◌<◌, ◌≡◌, refl, ◌≢◌, ◌⊎◌, ◌↔◌, Bool, true, false, Option, none, some, [], ◌∷◌, ◌++◌,
  length, arith, if◌then◌else◌, ltb, suc,
}
use triggerx_backend.Prelude.Texts.{text_eq_refl}
use triggerx_backend.Websocket.Rooms.{
  Text, text, text_eq, rune_text, TaskEventData, event_rooms, validate_room_access,
}

-- The check of a user's room compares the client's user with the `user_id` of the request, and
-- neither with the room: a client with a user may enter the room of any user.
pub validate_room_access_any_user :
    (me target : Text)
    → me ≢ []
    → validate_room_access me (text "user:" ++ target) (some me) ≡ some true
unfolding validate_room_access
validate_room_access_any_user [] target n = absurd (n refl)
validate_room_access_any_user (u ∷ me) target n = ground (arith, text_eq_refl (u ∷ me))

-- A room of three or four characters makes the check panic; a shorter one is refused, and a longer
-- one answered.
pub validate_room_access_panics :
    (me room : Text) (user_id : Option Text)
    → (validate_room_access me room user_id ≡ none) ↔ ((length room ≡ 3) ⊎ (length room ≡ 4))
unfolding validate_room_access
validate_room_access_panics me [] user_id = ground arith
validate_room_access_panics me (a ∷ []) user_id = ground arith
validate_room_access_panics me (a ∷ b ∷ []) user_id = ground arith
validate_room_access_panics me (a ∷ b ∷ c ∷ []) user_id = ground arith
validate_room_access_panics me (a ∷ b ∷ c ∷ d ∷ []) user_id = ground arith
validate_room_access_panics me (a ∷ b ∷ c ∷ d ∷ e ∷ rest) user_id = (
  λ h. absurd (answered (text_eq (a ∷ b ∷ c ∷ d ∷ e ∷ []) (text "user:")) user_id h),
  λ h. absurd (omega arith),
)
  where
    answered :
        (x : Bool) (id : Option Text)
        → (if ltb (suc (suc (suc (suc (suc (length rest)))))) 3
            then some false
            else if x
            then (elim id [
              | none ↦ some false
              | some [] ↦ some false
              | some (u ∷ us) ↦ some (text_eq me (u ∷ us))
            ])
            else some true)
          ≢ none
    answered false id q = ground arith
    answered true none q = ground arith
    answered true (some []) q = ground arith
    answered true (some (u ∷ us)) q = ground arith

-- Every task whose id is above the last code point, and below 2 ^ 32, is announced in one and the
-- same task room, whatever its id.
pub event_rooms_collide :
    (e : TaskEventData) (id : ℕ)
    → 0x110000 ≤ e.task_id
    → e.task_id < 4294967296
    → 0x110000 ≤ id
    → id < 4294967296
    → event_rooms (record e { task_id = id }) ≡ event_rooms e
unfolding event_rooms rune_text
event_rooms_collide e id a b c d = ground arith
