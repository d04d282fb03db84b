-- ===== src/Sqlc/Labels.antt =====
-- The labels of the enum types of sql/migrations/0001_initial_table.up.sql.
use based_backend.Prelude.{List, [], ◌∷◌, Bool, exists_where}
use based_backend.Types.{Bytes, codes, bytes_eq}

unfoldable pub gender_labels : List Bytes
gender_labels = codes "unspecified" ∷ codes "male" ∷ codes "female" ∷ codes "diverse" ∷ []

unfoldable pub event_status_labels : List Bytes
event_status_labels =
    codes "unspecified"
    ∷ codes "upcoming"
    ∷ codes "ongoing"
    ∷ codes "completed"
    ∷ codes "rescheduled"
    ∷ codes "cancelled"
    ∷ []

unfoldable pub event_category_labels : List Bytes
event_category_labels =
    codes "unspecified"
    ∷ codes "sports"
    ∷ codes "musicAndMovies"
    ∷ codes "art"
    ∷ codes "foodAndDrinks"
    ∷ codes "partyAndGames"
    ∷ codes "business"
    ∷ codes "nature"
    ∷ codes "technology"
    ∷ codes "travel"
    ∷ codes "education"
    ∷ codes "charity"
    ∷ codes "other"
    ∷ []

unfoldable pub message_category_labels : List Bytes
message_category_labels = codes "unspecified" ∷ codes "text" ∷ codes "location" ∷ []

-- Whether a string is one of the labels, in which case PostgreSQL takes it for a value of the enum.
unfoldable pub has_label : List Bytes → Bytes → Bool
has_label labels s = exists_where (bytes_eq s) labels
