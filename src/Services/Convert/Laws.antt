-- ===== src/Services/Convert/Laws.antt =====
-- The conversions of internal/services: what a round trip through the database gives back, and what a
-- UUID made of bytes keeps of them.
use based_backend.Services.Convert.{
  uuid_bytes, convert_uuid, convert_pb_category_to_sql, convert_sql_category_to_pb,
  convert_pb_status_to_sql, convert_sql_status_to_pb, convert_pb_message_type_to_sql,
  convert_sql_message_type_to_pb, convert_pb_message_status_to_sql,
  convert_sql_message_status_to_pb, convert_pb_gender_to_sql, convert_sql_gender_to_pb,
}
use based_backend.Sqlc.Events.Writes.{is_category, are_categories, is_event_status}
use based_backend.Services.Convert.Labels.{
  is_category-convert_pb_category_to_sql, is_event_status-convert_pb_status_to_sql,
  is_gender-convert_pb_gender_to_sql, is_message_category-convert_pb_message_type_to_sql,
}
use based_backend.Sqlc.Chat.{is_message_category}
use based_backend.Sqlc.Users.{is_gender}
use based_backend.Proto.Enums.{EventCategory, EventStatus, UserGender, MessageStatus, MessageType}
use based_backend.Types.{Bytes, some_value, uuid_eq, uuid_eq_refl}
use mathlib.Core.List.{append-nil}
use based_backend.Prelude.{
  ℕ, ◌≡◌, refl, ap, List, [], ◌∷◌, ◌++◌, map, length, length-append, length-take, length-replicate,
  arith, take, replicate, zero, suc, ◌-◌, true,
}

-- What the database keeps of an open enum: a number without a name becomes `unspecified`.
abbrev named_category : EventCategory → EventCategory
named_category (EventCategory.other_number n) = EventCategory.unspecified
named_category c = c

abbrev named_status : EventStatus → EventStatus
named_status (EventStatus.other_number n) = EventStatus.unspecified
named_status s = s

abbrev named_gender : UserGender → UserGender
named_gender (UserGender.other_number n) = UserGender.unspecified
named_gender g = g

abbrev named_message_status : MessageStatus → MessageStatus
named_message_status (MessageStatus.other_number n) = MessageStatus.unspecified
named_message_status s = s

abbrev named_message_type : MessageType → MessageType
named_message_type (MessageType.other_number n) = MessageType.unspecified
named_message_type t = t

pub category_there_and_back :
    (c : EventCategory)
    → convert_sql_category_to_pb (convert_pb_category_to_sql c) ≡ named_category c
unfolding convert_sql_category_to_pb convert_pb_category_to_sql
category_there_and_back c = ground arith

status_there_and_back :
    (s : EventStatus) → convert_sql_status_to_pb (convert_pb_status_to_sql s) ≡ named_status s
unfolding convert_sql_status_to_pb convert_pb_status_to_sql
status_there_and_back s = ground arith

gender_there_and_back :
    (g : UserGender) → convert_sql_gender_to_pb (convert_pb_gender_to_sql g) ≡ named_gender g
unfolding convert_sql_gender_to_pb convert_pb_gender_to_sql
gender_there_and_back g = ground arith

message_status_there_and_back :
    (s : MessageStatus)
    → convert_sql_message_status_to_pb (convert_pb_message_status_to_sql s) ≡ named_message_status s
unfolding convert_sql_message_status_to_pb convert_pb_message_status_to_sql
message_status_there_and_back s = ground arith

pub message_type_there_and_back :
    (t : MessageType)
    → convert_sql_message_type_to_pb (convert_pb_message_type_to_sql t) ≡ named_message_type t
unfolding convert_sql_message_type_to_pb convert_pb_message_type_to_sql
message_type_there_and_back t = ground arith

-- Each of the five enums of the protobuf files comes back from its sqlc type as it was, if the .proto
-- file names the value, and as `unspecified` if it does not.
pub enums_there_and_back :
    ((c : EventCategory)
      → convert_sql_category_to_pb (convert_pb_category_to_sql c) ≡ named_category c)
    × ((s : EventStatus) → convert_sql_status_to_pb (convert_pb_status_to_sql s) ≡ named_status s)
    × ((g : UserGender) → convert_sql_gender_to_pb (convert_pb_gender_to_sql g) ≡ named_gender g)
    × ((s : MessageStatus)
        → convert_sql_message_status_to_pb (convert_pb_message_status_to_sql s)
          ≡ named_message_status s)
    × ((t : MessageType)
        → convert_sql_message_type_to_pb (convert_pb_message_type_to_sql t) ≡ named_message_type t)
enums_there_and_back = (
  category_there_and_back, status_there_and_back, gender_there_and_back,
  message_status_there_and_back, message_type_there_and_back,
)

-- The strings of the category, status, gender and message type that the conversions give are always among
-- the labels that the migration declares for their enum.
pub converted_labels :
    ((c : EventCategory) → is_category (convert_pb_category_to_sql c) ≡ true)
    × ((s : EventStatus) → is_event_status (convert_pb_status_to_sql s) ≡ true)
    × ((g : UserGender) → is_gender (convert_pb_gender_to_sql g) ≡ true)
    × ((t : MessageType) → is_message_category (convert_pb_message_type_to_sql t) ≡ true)
converted_labels = (
  is_category-convert_pb_category_to_sql, is_event_status-convert_pb_status_to_sql,
  is_gender-convert_pb_gender_to_sql, is_message_category-convert_pb_message_type_to_sql,
)

-- So is each of a list of categories.
pub converted_categories :
    (cs : List EventCategory) → are_categories (map convert_pb_category_to_sql cs) ≡ true
unfolding are_categories
converted_categories [] = refl
converted_categories (c ∷ cs) = ground (arith, converted_labels.0 c, converted_categories cs)

-- A UUID has 16 bytes, whatever the length of the input.
length-uuid_bytes : (b : Bytes) → length (uuid_bytes b) ≡ 16
unfolding uuid_bytes
length-uuid_bytes b = omega (
  arith,
  length-append (take 16 b) (replicate (16 - length b) 0),
  length-take 16 b,
  length-replicate {A = ℕ} (16 - length b) 0,
)

take_all {ℓ} : {A : Type ℓ} (n : ℕ) (xs : List A) → length xs ≡ n → take n xs ≡ xs
take_all zero [] h = refl
take_all zero (x ∷ xs) h = absurd (omega arith)
take_all (suc n) [] h = refl
take_all (suc n) (x ∷ xs) h = ap (◌∷◌ x) (take_all n xs (omega arith))

take_prefix {ℓ} : {A : Type ℓ} (n : ℕ) (xs ys : List A) → length xs ≡ n → take n (xs ++ ys) ≡ xs
take_prefix zero [] ys h = refl
take_prefix zero (x ∷ xs) ys h = absurd (omega arith)
take_prefix (suc n) [] ys h = absurd (omega arith)
take_prefix (suc n) (x ∷ xs) ys h = ap (◌∷◌ x) (take_prefix n xs ys (omega arith))

-- Behind a prefix of 16 bytes nothing counts.
uuid_bytes_prefix : (b rest : Bytes) → length b ≡ 16 → uuid_bytes (b ++ rest) ≡ b
unfolding uuid_bytes
uuid_bytes_prefix b rest h =
    let none_left : 16 - length (b ++ rest) ≡ 0 = omega (arith, length-append b rest) in
    rw (none_left, take_prefix 16 b rest h) (append-nil b)

-- convertUUID gives a valid UUID of 16 bytes for any input; an input that starts with 16 bytes gives
-- those bytes, whatever follows them.
convert_uuid_bytes :
    (b rest : Bytes)
    → length b ≡ 16
    → (length (convert_uuid rest).value ≡ 16)
      × ((convert_uuid rest).valid ≡ true)
      × (convert_uuid (b ++ rest) ≡ some_value b)
unfolding convert_uuid
convert_uuid_bytes b rest h =
    (length-uuid_bytes rest, refl, ap some_value (uuid_bytes_prefix b rest h))

-- Two subject texts that agree in their first 16 bytes are converted to ids that are equal for the
-- database, however the texts go on.
pub convert_uuid_collision :
    (b rest rest' : Bytes)
    → length b ≡ 16
    → uuid_eq (convert_uuid (b ++ rest)) (convert_uuid (b ++ rest')) ≡ true
unfolding convert_uuid
convert_uuid_collision b rest rest' h =
    rw (uuid_bytes_prefix b rest h, uuid_bytes_prefix b rest' h) (uuid_eq_refl (some_value b) refl)
