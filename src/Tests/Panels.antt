-- ===== src/Tests/Panels.antt =====
-- An example of clicks around a comment.
use forwarding_explorer.Base.{false, List, [], ◌∷◌}
use forwarding_explorer.Docs.Text.{units}
use forwarding_explorer.Docs.Panels.{
  Panel, closed_pair, PanelLink, comment_open, comment_close, show_change_link, reply_link,
}

abbrev pub closed_panel : Panel
closed_panel = record {
  comments = closed_pair;
  proposal = closed_pair;
  change = closed_pair;
  change_text = [];
  source = units "text";
  reply = closed_pair;
  markup_box = false;
}

abbrev some_links : List PanelLink
some_links = comment_open ∷ show_change_link ∷ reply_link ∷ comment_open ∷ comment_close ∷ []
