-- ===== src/Registry/Labels.antt =====
-- `normalizeLabels` of admin-web/src/routes/certificate-routes.js.
use mqtt_trust_gateway.Base.{
  String, true, false, Option, none, some, List, [], ◌∷◌, map, ◌===◌, if◌then◌else◌, any, take,
  take_text, split_text, trim,
}
use mqtt_trust_gateway.Db.{Label}

-- An entry is a text, or an object with the two fields; a name that is missing reads as empty.
pub data LabelEntry : Type 0 where
  text : String → LabelEntry
  object : String → Option String → LabelEntry

pub data LabelsInput : Type 0 where
  array : List LabelEntry → LabelsInput
  text : String → LabelsInput

abbrev pub label_colors : List String
label_colors =
    "primary" ∷ "blue" ∷ "teal" ∷ "green" ∷ "amber" ∷ "orange" ∷ "red" ∷ "purple" ∷ "grey" ∷ []

abbrev pub entry_name : LabelEntry → String
entry_name (LabelEntry.text s) = s
entry_name (LabelEntry.object name color) = name

abbrev pub entry_color : LabelEntry → String
entry_color (LabelEntry.text s) = "primary"
entry_color (LabelEntry.object name none) = "primary"
entry_color (LabelEntry.object name (some color)) =
    if any (λ (c : String). c === color) label_colors then color else "primary"

abbrev pub label_entries : LabelsInput → List LabelEntry
label_entries (LabelsInput.array es) = es
label_entries (LabelsInput.text s) = map (λ t. LabelEntry.text t) (split_text b',' s)

abbrev pub entry_label : LabelEntry → Label
entry_label e = record { name = take_text 40 (trim (entry_name e)); color = entry_color e }

-- The map `unique`, newest last; `seen` are its keys.
unfoldable pub unique_labels :
    (lower : String → String) → List String → List LabelEntry → List Label
unique_labels lower seen [] = []
unique_labels lower seen (e ∷ es) =
    let l = entry_label e in
    let key = lower l.name in
    let skip = if l.name === "" then true else any (λ (k : String). k === key) seen in
    elim skip [
      | true ↦ unique_labels lower seen es
      | false ↦ l ∷ unique_labels lower (key ∷ seen) es
    ]

unfoldable pub normalize_labels : (lower : String → String) → LabelsInput → List Label
normalize_labels lower input = take 20 (unique_labels lower [] (label_entries input))
