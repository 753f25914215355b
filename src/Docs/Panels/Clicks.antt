-- ===== src/Docs/Panels/Clicks.antt =====
-- What is open agrees with the links that are shown.
use forwarding_explorer.Base.{◌≡◌, not, [], if◌then◌else◌}
use forwarding_explorer.Docs.Panels.{Pair, Panel}

-- One of the two links is shown, and a box is open exactly if it is the one that closes.
abbrev pub IsPaired : Pair → Type 0
IsPaired a = (a.opener ≡ not a.closer) × (a.boxes ≡ (if a.closer then 1 else 0))

-- So for all pairs, and no change is proposed in a field that is closed.
abbrev pub IsInOrder : Panel → Type 0
IsInOrder p =
    IsPaired p.comments
    × IsPaired p.proposal
    × IsPaired p.change
    × IsPaired p.reply
    × (p.change_text ≡ (if p.change.closer then p.change_text else []))
