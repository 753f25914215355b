-- ===== src/Client/Answers.antt =====
-- How a client takes the answer to a READ.
use forwarding_explorer.Base.{
  ℕ, zero, suc, ◌≡◌, ◌≢◌, ◌↔◌, refl, ap, ap₂, ◌∙◌, false, List, [], ◌∷◌, ==_self, length, arith,
}
use forwarding_explorer.Base.Int.{ℤ, pos, int_eq}
use forwarding_explorer.Server.Types.{ok, abort, fault}
use forwarding_explorer.Client.{
  fill_byte, buffer_of, errors_in, receive_read, error_validation_failed,
}

pub length-buffer_of : (size r : ℕ) → length (buffer_of size r) ≡ size
length-buffer_of zero r = refl
length-buffer_of (suc size) r = ap suc (length-buffer_of size r)

errors_in-buffer_of : (size r : ℕ) → errors_in r (buffer_of size r) ≡ 0
errors_in-buffer_of zero r = refl
errors_in-buffer_of (suc size) r = rw (==_self (fill_byte r), errors_in-buffer_of size r) refl

pub receive_read-buffer_of :
    (validation : ℤ) (size r : ℕ)
    → receive_read validation size r (buffer_of size r) ≡ ok (buffer_of size r)
unfolding receive_read
receive_read-buffer_of validation size r =
    rw (length-buffer_of size r, ==_self size, errors_in-buffer_of size r) (ground arith)

-- Data without an error are the buffer.
errors_in-buffer :
    (r : ℕ) (bytes : List ℕ) → errors_in r bytes ≡ 0 → bytes ≡ buffer_of (length bytes) r
errors_in-buffer r [] e = refl
errors_in-buffer r (b ∷ bytes) e = ap₂ ◌∷◌ (ground arith) (errors_in-buffer r bytes (ground arith))

-- With validation, a client goes on after a READ exactly if the data are its buffer, as many bytes as
-- it has asked for; it aborts on other data of this size, and the assertion fails on another size.
pub receive_read-ok :
    (validation : ℤ) (size r : ℕ) (bytes : List ℕ)
    → int_eq validation (pos 0) ≡ false
    → ((receive_read validation size r bytes ≡ ok bytes) ↔ (bytes ≡ buffer_of size r))
      × (length bytes ≡ size
          → bytes ≢ buffer_of size r
          → receive_read validation size r bytes ≡ abort error_validation_failed)
      × (length bytes ≢ size → receive_read validation size r bytes ≡ fault)
unfolding receive_read
receive_read-ok validation size r bytes on = (
  (
    (λ e. ground (arith, errors_in-buffer r bytes)),
    (λ e. rw e (receive_read-buffer_of validation size r)),
  ),
  (λ n differ.
      let wrong : errors_in r bytes ≢ 0 =
        λ e. differ (errors_in-buffer r bytes e ∙ ap (λ k. buffer_of k r) n) in
      ground arith),
  (λ n. ground arith),
)
