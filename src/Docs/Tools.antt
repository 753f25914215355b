-- ===== src/Docs/Tools.antt =====
-- docs/_build/html/_static/doctools.js: the utilities of the pages.
pub mod Address
pub mod Translations
pub mod Pages
pub mod Browser
