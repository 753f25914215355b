-- ===== src/Docs.antt =====
-- docs/_build/html/_static/: the scripts of the built documentation.
pub mod Text
pub mod Regex
pub mod LanguageData
pub mod Search
pub mod Splitter
pub mod Stemmer
pub mod Tools
pub mod Highlight
pub mod Votes
pub mod Comments
pub mod Templates
pub mod Forms
pub mod Panels
pub mod Paragraphs
pub mod Autogrow
pub mod Moderation
