-- ===== src/Docs/Forms/Runs.antt =====
-- What holds of the form after any events.
use forwarding_explorer.Base.{
  ◌≡◌, refl, Bool, true, false, not, ◌&&◌, List, [], ◌∷◌, Bool-cases, inl, inr, arith, length,
  if◌then◌else◌,
}
use forwarding_explorer.Docs.Text.{Text}
use forwarding_explorer.Docs.Comments.{Posted}
use forwarding_explorer.Docs.Comments.Insertion.{IsOrder, IsSorted, insert_comment-IsSorted}
use forwarding_explorer.Docs.Forms.{
  Sent, Form, is_empty, add_comment, reset_form, emptied, inserted, comment_added, comment_failed,
  show_change, hide_change, FormEvent, writes, proposes, submits, shows, hides, accepts, fails,
  with_answer, form_step, form_steps,
}

-- There is one request while the form is disabled, and none otherwise; the field for a change is
-- disabled only with the others; and the comments are in order.
abbrev pub IsConsistent : (by : Text) → Form → Type 0
IsConsistent by f =
    (length f.pending ≡ (if f.disabled then 1 else 0))
    × (f.proposal_disabled ≡ true → f.disabled ≡ true)
    × IsSorted by f.comments

add_comment-IsConsistent :
    (by : Text) (f : Form)
    → f.disabled ≡ false
    → IsConsistent by f
    → IsConsistent by (add_comment f)
unfolding add_comment
add_comment-IsConsistent by f e (w, d, s) = elim (Bool-cases (is_empty f.comment)) [
  | inl h ↦ rw (h, add_comment) (w, d, s)
  | inr h ↦
      let none_yet : length f.pending ≡ 0 = ground arith in
      rw (h, add_comment) (omega arith, (λ p. refl), s)
]

no_more :
    (request : Sent) (pending : List Sent) (disabled : Bool)
    → length (request ∷ pending) ≡ (if disabled then 1 else 0)
    → length pending ≡ 0
no_more request pending disabled e = ground arith

either_form :
    (P : Form → Type 0) (b : Bool) (f g : Form)
    → (b ≡ true → P f)
    → (b ≡ false → P g)
    → P (if b then f else g)
either_form P true f g p q = p refl
either_form P false f g p q = q refl

emptied-IsConsistent : (by : Text) (f : Form) → IsConsistent by f → IsConsistent by (emptied f)
emptied-IsConsistent by f (w, d, s) =
    either_form (IsConsistent by) f.empty _ f (λ e. (w, d, tt)) (λ e. (w, d, s))

inserted-IsConsistent :
    (by : Text)
    → IsOrder by
    → (moderator displayed : Bool) (posted : Posted) (f : Form) → IsConsistent by f
    → IsConsistent by (inserted by moderator (posted, displayed) f)
inserted-IsConsistent by order moderator displayed posted f (w, d, s) =
    either_form (IsConsistent by) (not displayed && not moderator) _ _ (λ e. (w, d, s))
      (λ e. (w, d, (insert_comment-IsSorted by order posted f.comments s).0))

accepted_lem :
    (by : Text)
    → IsOrder by
    → (moderator displayed : Bool) (posted : Posted) (pending : List Sent) (f : Form)
    → length pending ≡ (if f.disabled then 1 else 0)
    → IsConsistent by f
    → IsConsistent by (with_answer (comment_added by moderator (posted, displayed)) pending f)
unfolding comment_added
accepted_lem by order moderator displayed posted [] f e c = c
accepted_lem by order moderator displayed posted (request ∷ pending) f e (w, d, s) =
    let reset = reset_form (record f { pending = pending }) in
    inserted-IsConsistent by order moderator displayed posted (emptied reset)
      (emptied-IsConsistent by reset (no_more request pending f.disabled e, (λ p. p), s))

failed_lem :
    (by : Text) (pending : List Sent) (f : Form)
    → length pending ≡ (if f.disabled then 1 else 0)
    → IsConsistent by f
    → IsConsistent by (with_answer comment_failed pending f)
unfolding comment_failed
failed_lem by [] f e c = c
failed_lem by (request ∷ pending) f e (w, d, s) =
    (no_more request pending f.disabled e, (λ p. p), s)

form_step-IsConsistent :
    (by : Text)
    → IsOrder by
    → (moderator : Bool) (event : FormEvent) (f : Form) → IsConsistent by f
    → IsConsistent by (form_step by moderator event f)
unfolding show_change hide_change
form_step-IsConsistent by order moderator (writes comment) f c =
    either_form (IsConsistent by) f.disabled f _ (λ e. c) (λ e. c)
form_step-IsConsistent by order moderator (proposes proposal) f c =
    either_form (IsConsistent by) f.proposal_disabled f _ (λ e. c) (λ e. c)
form_step-IsConsistent by order moderator submits f c =
    either_form (IsConsistent by) f.disabled f (add_comment f) (λ e. c)
      (λ e. add_comment-IsConsistent by f e c)
form_step-IsConsistent by order moderator (shows source) f c =
    either_form (IsConsistent by) (is_empty f.node) f _ (λ e. c) (λ e. c)
form_step-IsConsistent by order moderator hides f c =
    either_form (IsConsistent by) (is_empty f.node) f _ (λ e. c) (λ e. (c.0, (λ p. absurd cc), c.2))
form_step-IsConsistent by order moderator (accepts (posted, displayed)) f c =
    accepted_lem by order moderator displayed posted f.pending f (c.0) c
form_step-IsConsistent by order moderator fails f c = failed_lem by f.pending f (c.0) c

-- If one request waits while the form is disabled, and none otherwise, the field for a change is
-- disabled only with the others, and the comments are in order, then so it is after any events, where
-- the order is one that the page has a link for. Messages for comments that are not displayed have no
-- place in the order.
pub form_steps-IsConsistent :
    (by : Text) (moderator : Bool)
    → IsOrder by
    → (events : List FormEvent) (f : Form) → IsConsistent by f
    → IsConsistent by (form_steps by moderator events f)
form_steps-IsConsistent by moderator order [] f c = c
form_steps-IsConsistent by moderator order (event ∷ events) f c =
    form_steps-IsConsistent by moderator order events (form_step by moderator event f)
      (form_step-IsConsistent by order moderator event f c)
