-- ===== src/Docs/Tools/Translations/Catalogs.antt =====
-- What a catalog changes.
use forwarding_explorer.Base.{
  ℕ, ◌≡◌, refl, Option, none, some, List, [], ◌∷◌, Bool-cases, Option-cases, inl, inr,
  if◌then◌else◌,
}
use forwarding_explorer.Docs.Text.{Text, same}
use forwarding_explorer.Docs.Tools.Translations.{
  Message, Translations, Catalog, message_text, gettext, ngettext, type_error, set_message,
  set_messages, add_translations,
}

-- The last message of a string in a catalog.
abbrev pub message_of : Text → List (Text × Message) → Option Message
message_of string [] = none
message_of string ((key, message) ∷ rest) = elim (message_of string rest) [
  | some later ↦ some later
  | none ↦ if same string key then some message else none
]

abbrev pub or_else : Option Message → Option Message → Option Message
or_else (some message) other = some message
or_else none other = other

set_messages_lem :
    (list : List (Text × Message)) (messages : Text → Option Message) (string : Text)
    → set_messages list messages string ≡ or_else (message_of string list) (messages string)
set_messages_lem [] messages string = refl
set_messages_lem ((key, message) ∷ rest) messages string =
    let later = set_messages_lem rest (set_message messages key message) string in
    elim (Option-cases (message_of string rest)) [
      | inl e ↦ elim (Bool-cases (same string key)) [
        | inl h ↦ rw (later, e, h) refl
        | inr h ↦ rw (later, e, h) refl
      ]
      | inr (found, e) ↦ rw (later, e) refl
    ]

-- The text of a message, or the string without one.
abbrev pub shown_text : Text → Option Message → Option Text
shown_text string none = some string
shown_text string (some message) = message_text message

-- After a catalog is added, a string is shown by its last message in the catalog, and as before if
-- it has none there.
pub gettext-add_translations :
    (catalog : Catalog) (t : Translations) (string : Text)
    → gettext (add_translations catalog t) string
      ≡ shown_text string (or_else (message_of string catalog.messages) (t.messages string))
unfolding gettext add_translations
gettext-add_translations catalog t string =
    let all = set_messages_lem catalog.messages t.messages string in
    elim (Option-cases (or_else (message_of string catalog.messages) (t.messages string))) [
      | inl e ↦ rw (gettext, all, e) refl
      | inr (m, e) ↦ rw (gettext, all, e) refl
    ]

-- After a catalog is added that has a message for a string, `ngettext` raises for it.
pub ngettext-add_translations :
    (catalog : Catalog) (t : Translations) (singular plural : Text) (n : ℕ) (m : Message)
    → message_of singular catalog.messages ≡ some m
    → ngettext (add_translations catalog t) singular plural n ≡ type_error
unfolding ngettext add_translations
ngettext-add_translations catalog t singular plural n m e =
    rw (ngettext, set_messages_lem catalog.messages t.messages singular, e) refl
