-- ===== src/Sqlc/Scan.antt =====
-- The Scan and Value methods of the enum types of internal/gen/sqlc/models.go, by which the driver
-- reads and writes them, and of their Null… types. Each type has its own copy of the three methods; here
-- they take the constants of the type.
pub mod RoundTrip
use based_backend.Prelude.{List, [], ◌∷◌, Bool, true, false, Option, none, some, if◌then◌else◌}
use based_backend.Types.{Bytes, Nullable, codes, bytes_eq}
use based_backend.Sqlc.Models.{
  EventCategoryType, EventStatusType, GenderType, MessageCategoryType, MessageStatusType,
  event_category_label, event_status_label, gender_label, message_category_label,
  message_status_label,
}

-- An enum type of the source: a string type, with its constants. `other` is a string that is none.
pub record EnumType (A : Type 0) : Type 0 where
  pub constants : List (Bytes × A)
  pub other : Bytes → A
  pub label : A → Bytes

find_constant : {A : Type 0} → (Bytes → A) → List (Bytes × A) → Bytes → A
find_constant other [] s = other s
find_constant other ((l, a) ∷ cs) s = if bytes_eq l s then a else find_constant other cs s

-- What the driver hands over: nil, a []byte, a string, or a value of another type.
pub data Source : Type 0 where
  nil : Source
  byte_slice string : Bytes → Source
  other_source : Source

-- A driver.Value as the methods build it.
pub data Value : Type 0 where
  nil_value : Value
  string_value : Bytes → Value

module _ {A : Type 0} (t : EnumType A) where
  -- The conversion of a string, as in GenderType(s).
  of_string : Bytes → A
  of_string s = find_constant t.other t.constants s

  -- `(e *T) Scan`: the value that e has then, or none for an error, which leaves e alone.
  pub scan : Source → Option A
  scan (byte_slice s) = some (of_string s)
  scan (string s) = some (of_string s)
  scan nil = none
  scan other_source = none

  abbrev scanned : Nullable A → Option A → Nullable A × Bool
  scanned ns none = (record { value = ns.value; valid = true }, false)
  scanned ns (some a) = (record { value = a; valid = true }, true)

  -- `(ns *NullT) Scan`: what ns is then, and whether there was no error.
  pub scan_null : Source → Nullable A → Nullable A × Bool
  scan_null nil ns = (record { value = of_string []; valid = false }, true)
  scan_null (byte_slice s) ns = scanned ns (scan (byte_slice s))
  scan_null (string s) ns = scanned ns (scan (string s))
  scan_null other_source ns = scanned ns (scan other_source)

  -- `(ns NullT) Value`, which never fails.
  pub value : Nullable A → Value
  value ns = if ns.valid then string_value (t.label ns.value) else nil_value

-- The three methods of a type.
pub record Methods (A : Type 0) : Type 0 where
  pub scan_method : Source → Option A
  pub scan_null_method : Source → Nullable A → Nullable A × Bool
  pub value_method : Nullable A → Value

abbrev pub methods : {A : Type 0} → EnumType A → Methods A
methods t = record { scan_method = scan t; scan_null_method = scan_null t; value_method = value t }

pub event_category : EnumType EventCategoryType
event_category = record {
  constants =
      (codes "unspecified", EventCategoryType.unspecified)
      ∷ (codes "sports", EventCategoryType.sports)
      ∷ (codes "musicAndMovies", EventCategoryType.music_and_movies)
      ∷ (codes "art", EventCategoryType.art)
      ∷ (codes "foodAndDrinks", EventCategoryType.food_and_drinks)
      ∷ (codes "partyAndGames", EventCategoryType.party_and_games)
      ∷ (codes "business", EventCategoryType.business)
      ∷ (codes "nature", EventCategoryType.nature)
      ∷ (codes "technology", EventCategoryType.technology)
      ∷ (codes "travel", EventCategoryType.travel)
      ∷ (codes "education", EventCategoryType.education)
      ∷ (codes "charity", EventCategoryType.charity)
      ∷ (codes "other", EventCategoryType.other)
      ∷ [];
  other = EventCategoryType.other_label;
  label = event_category_label;
}

pub event_status : EnumType EventStatusType
event_status = record {
  constants =
      (codes "unspecified", EventStatusType.unspecified)
      ∷ (codes "upcoming", EventStatusType.upcoming)
      ∷ (codes "ongoing", EventStatusType.ongoing)
      ∷ (codes "completed", EventStatusType.completed)
      ∷ (codes "rescheduled", EventStatusType.rescheduled)
      ∷ (codes "cancelled", EventStatusType.cancelled)
      ∷ [];
  other = EventStatusType.other_label;
  label = event_status_label;
}

pub gender : EnumType GenderType
gender = record {
  constants =
      (codes "unspecified", GenderType.unspecified)
      ∷ (codes "male", GenderType.male)
      ∷ (codes "female", GenderType.female)
      ∷ (codes "diverse", GenderType.diverse)
      ∷ [];
  other = GenderType.other_label;
  label = gender_label;
}

pub message_category : EnumType MessageCategoryType
message_category = record {
  constants =
      (codes "unspecified", MessageCategoryType.unspecified)
      ∷ (codes "text", MessageCategoryType.text)
      ∷ (codes "location", MessageCategoryType.location)
      ∷ [];
  other = MessageCategoryType.other_label;
  label = message_category_label;
}

pub message_status : EnumType MessageStatusType
message_status = record {
  constants =
      (codes "unspecified", MessageStatusType.unspecified)
      ∷ (codes "sent", MessageStatusType.sent)
      ∷ (codes "deleted", MessageStatusType.deleted)
      ∷ (codes "edited", MessageStatusType.edited)
      ∷ [];
  other = MessageStatusType.other_label;
  label = message_status_label;
}

abbrev pub event_category_methods : Methods EventCategoryType
event_category_methods = methods event_category

abbrev pub event_status_methods : Methods EventStatusType
event_status_methods = methods event_status

abbrev pub gender_methods : Methods GenderType
gender_methods = methods gender

abbrev pub message_category_methods : Methods MessageCategoryType
message_category_methods = methods message_category

abbrev pub message_status_methods : Methods MessageStatusType
message_status_methods = methods message_status
