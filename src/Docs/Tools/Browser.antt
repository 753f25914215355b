-- ===== src/Docs/Tools/Browser.antt =====
-- docs/_build/html/_static/doctools.js: `jQuery.uaMatch`, which names a browser, and what depends on
-- it. The regular expressions are matchers on the text behind a name.
use forwarding_explorer.Base.{
  ℕ, Bool, not, ◌&&◌, ◌||◌, Option, none, some, [], ◌∷◌, ◌==◌, length, drop, if◌then◌else◌,
}
use forwarding_explorer.Docs.Text.{Text, units, same, begins, has}
use forwarding_explorer.Docs.Regex.{dot}
use forwarding_explorer.Docs.Templates.{span_word}

-- `a || b`, of matches.
abbrev pub or_else {ℓ} : {A : Type ℓ} → Option A → Option A → Option A
or_else none other = other
or_else (some a) other = some a

-- `([\w.]+)`
abbrev pub some_word : Text → Option Text
some_word [] = none
some_word (c ∷ word) = some (c ∷ word)

abbrev pub word_run : Text → Option Text
word_run text = some_word ((span_word text).0)

-- `[ \/]([\w.]+)` and ` ([\w.]+)`
abbrev pub after_separator : (is_separator : ℕ → Bool) → Text → Option Text
after_separator is_separator [] = none
after_separator is_separator (c ∷ text) = if is_separator c then word_run text else none

abbrev pub blank_or_slash : ℕ → Bool
blank_or_slash c = (c == b' ') || (c == b'/')

abbrev pub blank : ℕ → Bool
blank c = c == b' '

-- A word, and then what the version is read from.
abbrev pub behind_word : (word : Text) → (Text → Option Text) → Text → Option Text
behind_word word version text = if begins word text then version (drop (length word) text) else none

-- `(?:.*version|)[ \/]([\w.]+)`: the last "version" on the line that fits, and else none.
abbrev pub last_version : Text → Option Text
last_version [] = none
last_version (c ∷ text) =
    let later = last_version text in
    or_else (if dot c then later else none)
      (behind_word (units "version") (after_separator blank_or_slash) (c ∷ text))

abbrev pub opera_version : Text → Option Text
opera_version text = or_else (last_version text) (after_separator blank_or_slash text)

-- `(?:.*? rv:([\w.]+)|)`: the first " rv:" on the line that fits, and else nothing, which has no
-- version.
abbrev pub first_rv : Text → Option Text
first_rv [] = none
first_rv (c ∷ text) =
    let later = first_rv text in
    or_else (behind_word (units " rv:") word_run (c ∷ text)) (if dot c then later else none)

-- `match[2] || "0"` for such a match.
abbrev pub or_zero : Option Text → Text
or_zero none = units "0"
or_zero (some version) = version

abbrev pub mozilla_version : Text → Option Text
mozilla_version text = some (or_zero (first_rv text))

-- `exec`: the first place where the name is followed by what the version is read from.
abbrev pub exec : (name : Text) → (Text → Option Text) → Text → Option Text
exec name version [] = behind_word name version []
exec name version (c ∷ ua) = or_else (behind_word name version (c ∷ ua)) (exec name version ua)

pub record BrowserMatch : Type 0 where
  pub browser : Text
  pub version : Text

abbrev pub named : (browser : Text) → Option Text → Option BrowserMatch
named browser none = none
named browser (some version) = some (record { browser = browser; version = version })

-- The matches that are tried, one after the other.
abbrev pub tried : (ua : Text) → Option BrowserMatch
tried ua =
    or_else (named (units "chrome") (exec (units "chrome") (after_separator blank_or_slash) ua)) (
      or_else (named (units "webkit") (exec (units "webkit") (after_separator blank_or_slash) ua)) (
        or_else (named (units "opera") (exec (units "opera") opera_version ua)) (
          or_else (named (units "msie") (exec (units "msie") (after_separator blank) ua)) (
            if has ua (units "compatible")
            then none
            else named (units "mozilla") (exec (units "mozilla") mozilla_version ua)))))

abbrev pub or_unknown : Option BrowserMatch → BrowserMatch
or_unknown none = record { browser = []; version = units "0" }
or_unknown (some found) = found

-- `lower` is toLowerCase.
unfoldable pub ua_match : (lower : Text → Text) (user_agent : Text) → BrowserMatch
ua_match lower user_agent = or_unknown (tried (lower user_agent))

-- `fixFirefoxAnchorBug`: whether the page is to be loaded again, where `jQuery.browser` has one
-- field, for the browser.
unfoldable pub reloads_anchor : (lower : Text → Text) (user_agent hash : Text) → Bool
unfolding ua_match
reloads_anchor lower user_agent hash =
    not (same hash []) && same (ua_match lower user_agent).browser (units "mozilla")
