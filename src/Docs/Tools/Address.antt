-- ===== src/Docs/Tools/Address.antt =====
-- docs/_build/html/_static/doctools.js: `jQuery.urldecode` and `jQuery.getQueryParameters`.
pub mod Values
use forwarding_explorer.Base.{
  ℕ, Bool, true, false, Option, none, some, List, [], ◌∷◌, ◌++◌, ◌==◌, if◌then◌else◌,
}
use mathlib.Core.Option
use forwarding_explorer.Docs.Text.{Text, units, same, contains}

-- `text.split(separator)`, for one character.
abbrev pub before_first : ℕ → List Text → List Text
before_first c [] = (c ∷ []) ∷ []
before_first c (piece ∷ pieces) = (c ∷ piece) ∷ pieces

abbrev pub split_at : (separator : ℕ) → Text → List Text
split_at separator [] = [] ∷ []
split_at separator (c ∷ text) =
    let pieces = split_at separator text in
    if c == separator then [] ∷ pieces else before_first c pieces

-- `s.substr(s.indexOf('?') + 1)`
abbrev pub has_question : Text → Bool
has_question [] = false
has_question (c ∷ s) = if c == b'?' then true else has_question s

abbrev pub behind_question : Text → Text
behind_question [] = []
behind_question (c ∷ s) = if c == b'?' then s else behind_question s

abbrev pub parameter_text : Text → Text
parameter_text s = if has_question s then behind_question s else s

-- `replace(/\+/g, ' ')`
abbrev pub plus_to_space : Text → Text
plus_to_space [] = []
plus_to_space (c ∷ text) = (if c == b'+' then b' ' else c) ∷ plus_to_space text

-- `result`, an object whose fields are arrays.
abbrev pub Parameters : Type 0
Parameters = List (Text × List Text)

-- `result[key].push(value)`, or `result[key] = [value]` for a key that is not there yet.
abbrev pub put_value : (key value : Text) → Parameters → Parameters
put_value key value [] = (key, value ∷ []) ∷ []
put_value key value ((k, values) ∷ rest) =
    if same key k then (k, values ++ value ∷ []) ∷ rest else (k, values) ∷ put_value key value rest

-- The fields of Object.prototype, which `in` finds in every object.
abbrev pub prototype_fields : List Text
prototype_fields =
    units "constructor"
    ∷ units "hasOwnProperty"
    ∷ units "isPrototypeOf"
    ∷ units "propertyIsEnumerable"
    ∷ units "toLocaleString"
    ∷ units "toString"
    ∷ units "valueOf"
    ∷ units "__proto__"
    ∷ units "__defineGetter__"
    ∷ units "__defineSetter__"
    ∷ units "__lookupGetter__"
    ∷ units "__lookupSetter__"
    ∷ []

-- None for the TypeError of `push` on one of these, which are no arrays.
abbrev pub add_value : (key value : Text) → Parameters → Option Parameters
add_value key value result =
    if contains prototype_fields key then none else some (put_value key value result)

-- `tmp[0]` and `tmp[1]` of `parts[i].split('=', 2)`. A value that is missing is decoded as the
-- string "undefined".
abbrev pub key_part : List Text → Text
key_part [] = []
key_part (key ∷ rest) = key

abbrev pub value_part : List Text → Text
value_part (key ∷ value ∷ rest) = value
value_part _ = units "undefined"

-- `decode` is decodeURIComponent, none for its URIError.
module _ (decode : Text → Option Text) where
  unfoldable pub urldecode : Text → Option Text
  urldecode x = Option.map plus_to_space (decode x)

  -- The key and the value of one part.
  abbrev pub both_decoded : Option Text → Option Text → Option (Text × Text)
  both_decoded (some key) (some value) = some (key, value)
  both_decoded _ _ = none

  unfoldable pub read_part : Text → Option (Text × Text)
  read_part part =
      both_decoded (urldecode (key_part (split_at b'=' part)))
        (urldecode (value_part (split_at b'=' part)))

  -- The loop on the parts.
  abbrev pub read_parts : List Text → Parameters → Option Parameters
  read_parts [] result = some result
  read_parts (part ∷ parts) result = elim (read_part part) [
    | none ↦ none
    | some (key, value) ↦ elim (add_value key value result) [
      | none ↦ none
      | some more ↦ read_parts parts more
    ]
  ]

  unfoldable pub get_query_parameters : Text → Option Parameters
  get_query_parameters s = read_parts (split_at b'&' (parameter_text s)) []
