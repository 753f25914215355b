-- ===== src/Docs/Tools/Translations.antt =====
-- docs/_build/html/_static/doctools.js: the translations of `Documentation`.
pub mod Catalogs
use forwarding_explorer.Base.{
  ℕ, Bool, true, false, Option, none, some, List, [], ◌∷◌, ◌==◌, if◌then◌else◌,
}
use forwarding_explorer.Docs.Text.{Text, same}

-- A translation: a string, or the forms of one.
pub data Message : Type 0 where
  text : Text → Message
  forms : List Text → Message

-- `TRANSLATIONS`, `PLURAL_EXPR` and `LOCALE`
pub record Translations : Type 0 where
  pub messages : Text → Option Message
  pub plural_expr : ℕ → ℕ
  pub locale : Text

pub record Catalog : Type 0 where
  pub messages : List (Text × Message)
  pub plural_expr : ℕ → ℕ
  pub locale : Text

-- `translated[0]`
abbrev pub first_form : List Text → Option Text
first_form [] = none
first_form (form ∷ rest) = some form

abbrev pub message_text : Message → Option Text
message_text (text translated) = some translated
message_text (forms list) = first_form list

-- The result, none for undefined.
unfoldable pub gettext : Translations → Text → Option Text
gettext t string = elim (t.messages string) [
  | none ↦ some string
  | some translated ↦ message_text translated
]

-- What `ngettext` does: it returns, or calls `Documentation.PLURALEXPR`, which is not defined, and
-- raises a TypeError.
pub data Called : Type 0 where
  returned : Text → Called
  type_error : Called

unfoldable pub ngettext : Translations → (singular plural : Text) → ℕ → Called
ngettext t singular plural n = elim (t.messages singular) [
  | none ↦ returned (if n == 1 then singular else plural)
  | some translated ↦ type_error
]

-- `TRANSLATIONS[key] = catalog.messages[key]`
abbrev pub set_message : (Text → Option Message) → Text → Message → Text → Option Message
set_message messages key message string = if same string key then some message else messages string

abbrev pub set_messages : List (Text × Message) → (Text → Option Message) → Text → Option Message
set_messages [] messages = messages
set_messages ((key, message) ∷ rest) messages = set_messages rest (set_message messages key message)

unfoldable pub add_translations : Catalog → Translations → Translations
add_translations catalog t = record {
  messages = set_messages catalog.messages t.messages;
  plural_expr = catalog.plural_expr;
  locale = catalog.locale;
}
