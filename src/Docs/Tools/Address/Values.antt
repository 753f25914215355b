-- ===== src/Docs/Tools/Address/Values.antt =====
-- The parameters of an address come back from it.
use forwarding_explorer.Base.{
  ℕ, ◌≡◌, refl, sym, ap, ◌∙◌, false, Option, some, List, [], ◌∷◌, ◌++◌, append_assoc, append-nil,
  All, Bool-cases, inl, inr, ◌==◌, ==_self, if◌then◌else◌,
}
use forwarding_explorer.Docs.Text.{Text, same, contains}
use forwarding_explorer.Docs.Text.Laws.{same-eq}
use forwarding_explorer.Docs.Tools.Address.{
  split_at, Parameters, put_value, prototype_fields, urldecode, read_part, read_parts,
  get_query_parameters,
}

-- `result[key]`, with the empty list for a missing key.
abbrev pub lookup : Text → Parameters → List Text
lookup key [] = []
lookup key ((k, values) ∷ rest) = if same key k then values else lookup key rest

-- The values of a key among pairs, in order.
abbrev pub values_of : Text → List (Text × Text) → List Text
values_of key [] = []
values_of key ((k, value) ∷ pairs) =
    if same key k then value ∷ values_of key pairs else values_of key pairs

abbrev pub Lacks : ℕ → Text → Type 0
Lacks c = All (λ d. (d == c) ≡ false)

-- "k1=v1&k2=v2..."
module _ (encode : Text → Text) where
  abbrev pub pair_text : Text × Text → Text
  pair_text (key, value) = encode key ++ b'=' ∷ encode value

  abbrev pub pairs_text : (Text × Text) → List (Text × Text) → Text
  pairs_text pair [] = pair_text pair
  pairs_text pair (next ∷ pairs) = pair_text pair ++ b'&' ∷ pairs_text next pairs

lookup-put_value :
    (x key value : Text) (result : Parameters)
    → lookup x (put_value key value result)
      ≡ (if same x key then lookup x result ++ value ∷ [] else lookup x result)
lookup-put_value x key value [] = refl
lookup-put_value x key value ((k, values) ∷ rest) = elim (Bool-cases (same key k)) [
  | inl e ↦
      rw (e, same-eq key k e)
        (elim (Bool-cases (same x k)) [ inl h ↦ rw h refl | inr h ↦ rw h refl ])
  | inr e ↦ elim (Bool-cases (same x key)) [
    | inl h ↦
        let other : same x k ≡ false = rw (same-eq x key h) e in
        rw (e, other, h) (lookup-put_value x key value rest ∙ rw h refl)
    | inr h ↦
        rw (e, h)
          (ap (λ z. if same x k then values else z) (lookup-put_value x key value rest ∙ rw h refl))
  ]
]

Lacks-append : (c : ℕ) (front back : Text) → Lacks c front → Lacks c back → Lacks c (front ++ back)
Lacks-append c [] back f b = b
Lacks-append c (d ∷ front) back (e, f) b = (e, Lacks-append c front back f b)

split_at-Lacks : (c : ℕ) (word : Text) → Lacks c word → split_at c word ≡ word ∷ []
split_at-Lacks c [] l = refl
split_at-Lacks c (d ∷ word) (e, l) = rw (e, split_at-Lacks c word l) refl

split_at_first :
    (c : ℕ) (word rest : Text)
    → Lacks c word
    → split_at c (word ++ c ∷ rest) ≡ word ∷ split_at c rest
split_at_first c [] rest l = rw (==_self c) refl
split_at_first c (d ∷ word) rest (e, l) = rw (e, split_at_first c word rest l) refl

module _ (decode : Text → Option Text) (encode : Text → Text) where
  -- A string that is decoded from its code, which has no "=" and no "&".
  abbrev pub IsCoded : Text → Type 0
  IsCoded x = (urldecode decode (encode x) ≡ some x) × Lacks b'=' (encode x) × Lacks b'&' (encode x)

  abbrev pub AreCoded : Text × Text → Type 0
  AreCoded (key, value) = IsCoded key × IsCoded value × (contains prototype_fields key ≡ false)

  read_part-pair :
      (key value : Text)
      → AreCoded (key, value)
      → read_part decode (pair_text encode (key, value)) ≡ some (key, value)
  unfolding read_part
  read_part-pair key value ((dk, ek, ak), (dv, ev, av), own) =
      rw
        (
          split_at_first b'=' (encode key) (encode value) ek,
          split_at-Lacks b'=' (encode value) ev,
          dk,
          dv,
        )
        refl

  lookup-values :
      (x key value : Text) (pairs : List (Text × Text)) (result : Parameters)
      → lookup x (put_value key value result) ++ values_of x pairs
        ≡ lookup x result ++ values_of x ((key, value) ∷ pairs)
  lookup-values x key value pairs result = elim (Bool-cases (same x key)) [
    | inl e ↦
        rw (lookup-put_value x key value result, e)
          (append_assoc (lookup x result) (value ∷ []) (values_of x pairs))
    | inr e ↦ rw (lookup-put_value x key value result, e) refl
  ]

  pair_text-Lacks : (pair : Text × Text) → AreCoded pair → Lacks b'&' (pair_text encode pair)
  pair_text-Lacks (key, value) ((dk, ek, ak), (dv, ev, av), own) =
      Lacks-append b'&' (encode key) (b'=' ∷ encode value) ak (refl, av)

  read_parts-pairs :
      (pair : Text × Text) (pairs : List (Text × Text)) (result : Parameters)
      → All AreCoded (pair ∷ pairs)
      → (final : Parameters) × (read_parts decode
            (split_at b'&' (pairs_text encode pair pairs))
            result
          ≡ some final)
        × ((x : Text) → lookup x final ≡ lookup x result ++ values_of x (pair ∷ pairs))
  read_parts-pairs (key, value) [] result (h, hs) = (
    put_value key value result,
    rw
        (
          split_at-Lacks b'&' (pair_text encode (key, value)) (pair_text-Lacks (key, value) h),
          read_part-pair key value h,
          read_parts,
          h.2,
        )
        refl,
    λ x.
        sym (append-nil (lookup x (put_value key value result)))
        ∙ lookup-values x key value [] result,
  )
  read_parts-pairs (key, value) (next ∷ pairs) result (h, hs) =
      let (final, e, l) = read_parts-pairs next pairs (put_value key value result) hs in
      (
        final,
        rw
            (
              split_at_first b'&' (pair_text encode (key, value)) (pairs_text encode next pairs)
                  (pair_text-Lacks (key, value) h),
              read_part-pair key value h,
              read_parts,
              h.2,
            )
            e,
        λ x. l x ∙ lookup-values x key value (next ∷ pairs) result,
      )

  -- Pairs of keys and values, encoded and joined by "=" and "&" behind a "?", come back from
  -- getQueryParameters: each key has its values, in order. Each key and value is one that urldecode
  -- decodes from its code, and whose code has no "=" and no "&"; no key is a field of Object.prototype.
  pub get_query_parameters-pairs :
      (pair : Text × Text) (pairs : List (Text × Text))
      → All AreCoded (pair ∷ pairs)
      → (result : Parameters) × (get_query_parameters decode (b'?' ∷ pairs_text encode pair pairs)
          ≡ some result)
        × ((key : Text) → lookup key result ≡ values_of key (pair ∷ pairs))
  unfolding get_query_parameters
  get_query_parameters-pairs pair pairs h = read_parts-pairs pair pairs [] h
