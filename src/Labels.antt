-- ===== src/Labels.antt =====
-- crates/aether-core/src/labels.rs: constraints on node labels, and their text form.
-- `Labels` is a map from texts to texts; a constraint is read from text and printed to text.
use aether_mesh.Base.{
  ℕ, if◌then◌else◌, Bool, true, false, ◌&&◌, not, List, [], ◌∷◌, ◌++◌, Option, none, some,
}
use aether_mesh.Base.Assoc.{lookup, insert, contains_key}
use aether_mesh.Base.Result.{Result, ok, err}
use aether_mesh.Text.{Text, text_eq, text_key, trim, split_char, split_pair}

abbrev pub Labels : Type 0
Labels = List (Text × Text)

pub data Constraint : Type 0 where
  equals : (key value : Text) → Constraint
  exists : (key : Text) → Constraint
  not_equals : (key value : Text) → Constraint

-- `Option<&String> == Some(value)`.
abbrev has_value : Option Text → Text → Bool
has_value none value = false
has_value (some v) value = text_eq v value

unfoldable pub is_satisfied_by : Constraint → Labels → Bool
is_satisfied_by (equals key value) labels = has_value (lookup key labels) value
is_satisfied_by (exists key) labels = contains_key key labels
is_satisfied_by (not_equals key value) labels = not (has_value (lookup key labels) value)

unfoldable pub satisfies_all : Labels → List Constraint → Bool
satisfies_all labels [] = true
satisfies_all labels (c ∷ cs) = is_satisfied_by c labels && satisfies_all labels cs

pub data ConstraintParseError : Type 0 where
  invalid : (input : Text) → ConstraintParseError

abbrev pub bang : ℕ
bang = b'!'

abbrev pub equal_sign : ℕ
equal_sign = b'='

-- A key is trimmed and must not be empty.
abbrev pub with_key : Text → Text → (Text → Constraint) → Result ConstraintParseError Constraint
with_key input [] build = err (invalid input)
with_key input (c ∷ cs) build = ok (build (c ∷ cs))

abbrev pub parse_equals :
    Text → Text → Option (Text × Text) → Result ConstraintParseError Constraint
parse_equals input text (some (key, value)) = with_key input (trim key) λ k. equals k (trim value)
parse_equals input text none = with_key input text exists

abbrev pub parse_text : Text → Text → Option (Text × Text) → Result ConstraintParseError Constraint
parse_text input text (some (key, value)) = with_key input (trim key) λ k. not_equals k (trim value)
parse_text input text none = parse_equals input text (split_char equal_sign text)

-- `Constraint::from_str`.
unfoldable pub from_str : Text → Result ConstraintParseError Constraint
from_str input = let text = trim input in parse_text input text (split_pair bang equal_sign text)

-- `Display`.
unfoldable pub display : Constraint → Text
display (equals key value) = key ++ (equal_sign ∷ value)
display (exists key) = key
display (not_equals key value) = key ++ (bang ∷ equal_sign ∷ value)

-- `parse_labels`: pairs without a separator or with an empty key are dropped.
abbrev pub add_label : Option (Text × Text) → Labels → Labels
add_label none labels = labels
add_label (some (key, value)) labels =
    if text_eq (trim key) [] then labels else insert (trim key) (trim value) labels

parse_labels_from : Labels → List Text → Labels
parse_labels_from labels [] = labels
parse_labels_from labels (pair ∷ pairs) =
    parse_labels_from (add_label (split_char equal_sign pair) labels) pairs

unfoldable pub parse_labels : List Text → Labels
unfolding parse_labels_from
parse_labels pairs = parse_labels_from [] pairs
