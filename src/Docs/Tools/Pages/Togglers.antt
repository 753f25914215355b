-- ===== src/Docs/Tools/Pages/Togglers.antt =====
-- Two clicks on a button of the index undo each other.
use forwarding_explorer.Base.{
  suc, ◌-◌, ◌≡◌, refl, ap, ap₂, ◌∙◌, Bool, true, false, not, [], ◌∷◌, ◌++◌, length, length-append,
  arith,
}
use forwarding_explorer.Docs.Text.{Text, units, same}
use forwarding_explorer.Docs.Text.Laws.{drop-front, take-front}
use forwarding_explorer.Docs.Tools.Pages.{last_units, without_last, toggle_src, click}

length-base : (base suffix : Text) → length (base ++ suffix) - length suffix ≡ length base
length-base base suffix = omega (arith, length-append base suffix)

last-suffix : (base suffix : Text) → last_units (length suffix) (base ++ suffix) ≡ suffix
last-suffix base suffix = rw (length-base base suffix) (drop-front base suffix)

without-suffix : (base suffix : Text) → without_last (length suffix) (base ++ suffix) ≡ base
without-suffix base suffix = rw (length-base base suffix) (take-front base suffix)

abbrev minus_src : Text → Text
minus_src base = base ++ units "minus.png"

abbrev plus_src : Text → Text
plus_src base = base ++ units "plus.png"

toggle-minus : (base : Text) → toggle_src (minus_src base) ≡ plus_src base
toggle-minus base =
    rw (last-suffix base (units "minus.png"), without-suffix base (units "minus.png")) refl

last-plus : (base : Text) → same (last_units 9 (plus_src base)) (units "minus.png") ≡ false
last-plus [] = refl
last-plus (c ∷ []) = ground arith
last-plus (c ∷ d ∷ base) =
    let whole = length (d ∷ base ++ units "plus.png") in
    let one_less : suc whole - 9 ≡ suc (whole - 9) =
      omega (arith, length-append base (units "plus.png")) in
    rw one_less (last-plus (d ∷ base))

toggle-plus : (base : Text) → toggle_src (plus_src base) ≡ minus_src base
toggle-plus base = rw (last-plus base, without-suffix base (units "plus.png")) refl

toggle_twice :
    (base : Text)
    → (toggle_src (toggle_src (minus_src base)) ≡ minus_src base)
      × (toggle_src (toggle_src (plus_src base)) ≡ plus_src base)
toggle_twice base = (
  ap toggle_src (toggle-minus base) ∙ toggle-plus base,
  ap toggle_src (toggle-plus base) ∙ toggle-minus base,
)

not_twice : (b : Bool) → not (not b) ≡ b
not_twice true = refl
not_twice false = refl

-- Two clicks on a button whose image is a "minus.png" or a "plus.png" leave its image and its rows
-- as they were.
pub click_twice :
    (base : Text) (shown : Bool)
    → (click (click (record { src = base ++ units "minus.png"; rows_shown = shown }))
        ≡ record { src = base ++ units "minus.png"; rows_shown = shown })
      × (click (click (record { src = base ++ units "plus.png"; rows_shown = shown }))
          ≡ record { src = base ++ units "plus.png"; rows_shown = shown })
unfolding click
click_twice base shown = (
  ap₂ (λ src b. record { src = src; rows_shown = b }) ((toggle_twice base).0) (not_twice shown),
  ap₂ (λ src b. record { src = src; rows_shown = b }) ((toggle_twice base).1) (not_twice shown),
)
