-- ===== src/Docs/Panels.antt =====
-- docs/_build/html/_static/websupport.js: what opens and closes around a comment, and the links for
-- it in `initEvents`. Animations are taken as done.
pub mod Clicks
use forwarding_explorer.Base.{
  ℕ, ◌+◌, ◌-◌, Bool, true, false, not, ◌&&◌, List, [], ◌∷◌, if◌then◌else◌,
}
use forwarding_explorer.Docs.Text.{Text}

-- A link that opens, one that closes, and how many boxes are open between them.
pub record Pair : Type 0 where
  pub opener : Bool
  pub closer : Bool
  pub boxes : ℕ

-- The elements of one id: "ao", "ah" and "sc" for the comments of a paragraph, "sp", "hp" and "pr"
-- for a proposal, and "rl", "cr" and "rd" for a reply; in the popup "sc", "pc", "hc" and "pt" for the
-- change that is proposed, with the text of "pt" and the source in its data, and "mb" for the help on
-- markup.
pub record Panel : Type 0 where
  pub comments : Pair
  pub proposal : Pair
  pub change : Pair
  pub change_text : Text
  pub source : Text
  pub reply : Pair
  pub markup_box : Bool

abbrev pub closed_pair : Pair
closed_pair = record { opener = true; closer = false; boxes = 0 }

-- A new popup, whose field for a change and help are closed.
unfoldable pub show : Panel → Panel
show p = record p {
  comments = record { opener = false; closer = true; boxes = p.comments.boxes + 1 };
  change = closed_pair;
  change_text = [];
  markup_box = false;
}

-- `div.remove()` takes the one box of the id.
unfoldable pub hide : Panel → Panel
hide p = record p {
  comments = record { opener = true; closer = false; boxes = p.comments.boxes - 1 };
}

unfoldable pub show_proposal : Panel → Panel
show_proposal p = record p { proposal = record { opener = false; closer = true; boxes = 1 } }

unfoldable pub hide_proposal : Panel → Panel
hide_proposal p = record p { proposal = record { opener = true; closer = false; boxes = 0 } }

unfoldable pub show_propose_change : Panel → Panel
show_propose_change p = record p {
  change = record { opener = false; closer = true; boxes = 1 };
  change_text = p.source;
}

unfoldable pub hide_propose_change : Panel → Panel
hide_propose_change p = record p {
  change = record { opener = true; closer = false; boxes = 0 };
  change_text = [];
}

unfoldable pub open_reply : Panel → Panel
open_reply p = record p {
  reply = record { opener = false; closer = true; boxes = p.reply.boxes + 1 };
}

unfoldable pub close_reply : Panel → Panel
close_reply p = record p {
  reply = record { opener = true; closer = false; boxes = p.reply.boxes - 1 };
}

abbrev pub toggle_comment_markup_box : Panel → Panel
toggle_comment_markup_box p = record p { markup_box = not p.markup_box }

-- The links, by their classes. The one that opens the comments has its handler in `$.fn.comment`.
pub data PanelLink : Type 0 where
  comment_open : PanelLink
  comment_close : PanelLink
  reply_link : PanelLink
  close_reply_link : PanelLink
  show_proposal_link : PanelLink
  hide_proposal_link : PanelLink
  show_change_link : PanelLink
  hide_change_link : PanelLink
  markup_link : PanelLink

abbrev pub link_shown : PanelLink → Panel → Bool
link_shown comment_open p = p.comments.opener
link_shown comment_close p = p.comments.closer
link_shown reply_link p = p.reply.opener
link_shown close_reply_link p = p.reply.closer
link_shown show_proposal_link p = p.proposal.opener
link_shown hide_proposal_link p = p.proposal.closer
link_shown show_change_link p = p.comments.closer && p.change.opener
link_shown hide_change_link p = p.comments.closer && p.change.closer
link_shown markup_link p = p.comments.closer

abbrev pub on_click : PanelLink → Panel → Panel
on_click comment_open p = show p
on_click comment_close p = hide p
on_click reply_link p = open_reply p
on_click close_reply_link p = close_reply p
on_click show_proposal_link p = show_proposal p
on_click hide_proposal_link p = hide_proposal p
on_click show_change_link p = show_propose_change p
on_click hide_change_link p = hide_propose_change p
on_click markup_link p = toggle_comment_markup_box p

-- Clicks, of which one on a link that is not shown does nothing.
abbrev pub panel_clicks : List PanelLink → Panel → Panel
panel_clicks [] p = p
panel_clicks (link ∷ links) p =
    panel_clicks links (if link_shown link p then on_click link p else p)
