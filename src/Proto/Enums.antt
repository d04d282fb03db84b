-- ===== src/Proto/Enums.antt =====
-- The enums of proto/chat.proto, event.proto and user.proto. A proto3 enum is open: `other_number`
-- stands for a number that the .proto file does not name.
use based_backend.Prelude.Int.{ℤ}

pub data EventCategory : Type 0 where
  unspecified sports music_and_movies art food_and_drinks party_and_games business nature technology
        travel education charity other :
      EventCategory
  other_number : ℤ → EventCategory

pub data EventStatus : Type 0 where
  unspecified upcoming ongoing completed cancelled rescheduled : EventStatus
  other_number : ℤ → EventStatus

pub data UserGender : Type 0 where
  unspecified male female diverse : UserGender
  other_number : ℤ → UserGender

pub data MessageStatus : Type 0 where
  unspecified sent deleted edited : MessageStatus
  other_number : ℤ → MessageStatus

pub data MessageType : Type 0 where
  unspecified text location : MessageType
  other_number : ℤ → MessageType
