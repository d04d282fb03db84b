-- ===== src/Sqlc/Scan/RoundTrip.antt =====
-- What Value writes, Scan reads.
use based_backend.Prelude.{
  List, [], ◌∷◌, Bool, true, false, ◌≡◌, refl, All, Bool-cases, inl, inr, ◌⊎◌, ◌∙◌, ap,
}
use based_backend.Types.{Bytes, Nullable, bytes_eq, eq_of_bytes_eq}
use based_backend.Sqlc.Models.{
  event_category_label, event_status_label, gender_label, message_category_label,
  message_status_label,
}
use based_backend.Sqlc.Scan.{
  EnumType, find_constant, Source, nil, byte_slice, string, Value, nil_value, string_value,
  of_string, scan, scan_null, value, Methods, methods, event_category_methods, event_status_methods,
  gender_methods, message_category_methods, message_status_methods, event_category, event_status,
  gender, message_category, message_status,
}

record HasLabels {A : Type 0} (t : EnumType A) : Type 0 where
  constants : All (λ c. t.label c.1 ≡ c.0) t.constants
  others : (s : Bytes) → t.label (t.other s) ≡ s

find_constant-label :
    {A : Type 0} (label : A → Bytes) (other : Bytes → A) (cs : List (Bytes × A)) (s : Bytes)
    → ((s : Bytes) → label (other s) ≡ s)
    → All (λ c. label c.1 ≡ c.0) cs
    → label (find_constant other cs s) ≡ s
unfolding find_constant
find_constant-label label other [] s o h = o s
find_constant-label label other ((l, a) ∷ cs) s o (e, h) = elim (Bool-cases (bytes_eq l s)) [
  | inl same ↦ rw same (e ∙ eq_of_bytes_eq l s same)
  | inr differs ↦ rw differs (find_constant-label label other cs s o h)
]

-- The sources by which a database may give back a value.
pub GivesBack : Value → Source → Type 0
GivesBack nil_value src = src ≡ nil
GivesBack (string_value s) src = (src ≡ string s) ⊎ (src ≡ byte_slice s)

-- A Scan of what Value has written has no error, and what it reads is written as the same again.
pub RoundTrips : {A : Type 0} → Methods A → Type 0
RoundTrips {A} t =
    (ns old : Nullable A) (src : Source)
    → GivesBack (t.value_method ns) src
    → ((t.scan_null_method src old).1 ≡ true)
      × (t.value_method (t.scan_null_method src old).0 ≡ t.value_method ns)

module _ {A : Type 0} (t : EnumType A) (h : HasLabels t) where
  reads_back :
      (a : A) (valid : Bool) (old : Nullable A) (src : Source)
      → GivesBack (value t (record { value = a; valid = valid })) src
      → ((scan_null t src old).1 ≡ true)
        × (value t (scan_null t src old).0 ≡ value t (record { value = a; valid = valid }))
  unfolding value scan_null GivesBack scan of_string
  reads_back a false old src g = rw g (refl, refl)
  reads_back a true old src (inl e) = rw e (
    refl,
    ap string_value (find_constant-label t.label t.other t.constants _ h.others h.constants),
  )
  reads_back a true old src (inr e) = rw e (
    refl,
    ap string_value (find_constant-label t.label t.other t.constants _ h.others h.constants),
  )

  HasLabels-RoundTrips : RoundTrips (methods t)
  unfolding RoundTrips
  HasLabels-RoundTrips ns old src g = reads_back ns.value ns.valid old src g

event_category-HasLabels : HasLabels event_category
unfolding event_category event_category_label
event_category-HasLabels = record {
  constants = (
    refl,
    (
      refl,
      (refl, (refl, (refl, (refl, (refl, (refl, (refl, (refl, (refl, (refl, (refl, tt))))))))))),
    ),
  );
  others = λ s. refl;
}

event_status-HasLabels : HasLabels event_status
unfolding event_status event_status_label
event_status-HasLabels = record {
  constants = (refl, (refl, (refl, (refl, (refl, (refl, tt))))));
  others = λ s. refl;
}

gender-HasLabels : HasLabels gender
unfolding gender gender_label
gender-HasLabels = record { constants = (refl, (refl, (refl, (refl, tt)))); others = λ s. refl }

message_category-HasLabels : HasLabels message_category
unfolding message_category message_category_label
message_category-HasLabels = record { constants = (refl, (refl, (refl, tt))); others = λ s. refl }

message_status-HasLabels : HasLabels message_status
unfolding message_status message_status_label
message_status-HasLabels = record {
  constants = (refl, (refl, (refl, (refl, tt))));
  others = λ s. refl;
}

-- Each of the five enum types reads back what it has written: if Scan is handed nil for a NULL, and for
-- any other value the string that Value gave, as a string or as bytes, then it has no error, and
-- Value gives the same once more, whatever the variable has held before.
pub scan_null-value :
    RoundTrips event_category_methods
    × RoundTrips event_status_methods
    × RoundTrips gender_methods
    × RoundTrips message_category_methods
    × RoundTrips message_status_methods
scan_null-value = (
  HasLabels-RoundTrips event_category event_category-HasLabels,
  HasLabels-RoundTrips event_status event_status-HasLabels,
  HasLabels-RoundTrips gender gender-HasLabels,
  HasLabels-RoundTrips message_category message_category-HasLabels,
  HasLabels-RoundTrips message_status message_status-HasLabels,
)
