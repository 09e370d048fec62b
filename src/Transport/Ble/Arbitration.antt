-- ===== src/Transport/Ble/Arbitration.antt =====
-- Of two nodes that read each other's advertisement, one dials.
use mlink.Prelude.{
  ℕ, ◌≡◌, ◌⊎◌, inl, inr, refl, sym, ap, ◌∙◌, arith, String, List, [], ◌∷◌, ◌++◌, true, Option, some,
  ◌==◌, length, take, length-take, take-length_append,
}
use mlink.Link.{ble}
use mlink.Transport.Ble.{
  identity_in, identity_of, encode_identity_uuid, decode_identity_uuid, Order, less, equal, greater,
  cmp_bytes, dials_by, dials, should_dial_as_central, dial, skip, symmetric_fallback, decided,
  decide_ble_role,
}

abbrev pub opposite : Order → Order
opposite less = greater
opposite equal = equal
opposite greater = less

cmp_bytes-opposite : (a b : List ℕ) → cmp_bytes b a ≡ opposite (cmp_bytes a b)
unfolding cmp_bytes
cmp_bytes-opposite [] [] = refl
cmp_bytes-opposite [] (b ∷ bs) = refl
cmp_bytes-opposite (a ∷ xs) [] = refl
cmp_bytes-opposite (a ∷ xs) (b ∷ bs) = ground (arith, cmp_bytes-opposite xs bs)

cmp_bytes-equal : (a b : List ℕ) → cmp_bytes a b ≡ equal → a ≡ b
unfolding cmp_bytes
cmp_bytes-equal [] [] e = refl
cmp_bytes-equal [] (b ∷ bs) e = cc
cmp_bytes-equal (a ∷ xs) [] e = cc
cmp_bytes-equal (a ∷ xs) (b ∷ bs) e = ground (arith, cmp_bytes-equal xs bs)

take-eight : (src rest : List ℕ) → length src ≡ 8 → take 8 (src ++ rest) ≡ src
take-eight src rest e = ap (λ (n : ℕ). take n (src ++ rest)) (sym e) ∙ take-length_append src rest

decode-identity_in :
    (src : List ℕ) → length src ≡ 16 → decode_identity_uuid (identity_in src) ≡ some (take 8 src)
unfolding decode_identity_uuid
decode-identity_in src e =
    ap some (take-eight (take 8 src) (0 ∷ 0 ∷ 0 ∷ 0 ∷ []) (omega (arith, length-take 8 src)))

module _ (parse_uuid : String → Option (List ℕ)) (a b : String) (ua ub : List ℕ) where
  -- What the advertisement of a node is read as by the other.
  advertised :
      (name : String) (u : List ℕ)
      → parse_uuid name ≡ some u
      → length u ≡ 16
      → (uuid : List ℕ) × (encode_identity_uuid parse_uuid name ≡ some uuid)
        × (decode_identity_uuid uuid ≡ some (take 8 u))
  unfolding encode_identity_uuid
  advertised name u e k = (identity_in u, ap identity_of e, decode-identity_in u k)

  decision :
      (own : String) (u id : List ℕ)
      → parse_uuid own ≡ some u
      → length id ≡ 8
      → decide_ble_role parse_uuid ble own id ≡ decided (dials_by (cmp_bytes (take 8 u) id))
  unfolding decide_ble_role should_dial_as_central dials
  decision own u id e k = let k' : (length id == 8) ≡ true = ground (arith, k) in rw (k', e) refl

  abbrev pub Arbitrated : List ℕ → List ℕ → Type 0
  Arbitrated id_a id_b =
      let by_a = decide_ble_role parse_uuid ble a id_b in
      let by_b = decide_ble_role parse_uuid ble b id_a in
      ((id_a ≡ id_b) × (by_a ≡ symmetric_fallback) × (by_b ≡ symmetric_fallback))
      ⊎ (((by_a ≡ dial) × (by_b ≡ skip)) ⊎ ((by_a ≡ skip) × (by_b ≡ dial)))

  by_order :
      (id_a id_b : List ℕ) (o : Order)
      → cmp_bytes id_a id_b ≡ o
      → decide_ble_role parse_uuid ble a id_b ≡ decided (dials_by o)
      → decide_ble_role parse_uuid ble b id_a ≡ decided (dials_by (opposite o))
      → Arbitrated id_a id_b
  by_order id_a id_b less e p q = inr (inr (p, q))
  by_order id_a id_b greater e p q = inr (inl (p, q))
  by_order id_a id_b equal e p q = inl (cmp_bytes-equal id_a id_b e, p, q)

  -- Two nodes whose application identifiers are UUIDs, and that each read the identity in the other's
  -- advertisement: one decides to dial and the other to wait, unless the first eight bytes of the
  -- identifiers are the same; then both fall back to the symmetric way.
  pub decide_ble_role-Arbitrated :
      parse_uuid a ≡ some ua
      → parse_uuid b ≡ some ub
      → length ua ≡ 16
      → length ub ≡ 16
      → (id_a id_b : List ℕ) × ((uuid : List ℕ) × (encode_identity_uuid parse_uuid a ≡ some uuid)
          × (decode_identity_uuid uuid ≡ some id_a))
        × ((uuid : List ℕ) × (encode_identity_uuid parse_uuid b ≡ some uuid)
            × (decode_identity_uuid uuid ≡ some id_b))
        × Arbitrated id_a id_b
  decide_ble_role-Arbitrated ea eb ka kb =
      let ia = take 8 ua in
      let ib = take 8 ub in
      (
        ia,
        ib,
        advertised a ua ea ka,
        advertised b ub eb kb,
        by_order ia ib (cmp_bytes ia ib) refl
            (decision a ua ib ea (omega (arith, length-take 8 ub, kb)))
            (decision b ub ia eb (omega (arith, length-take 8 ua, ka))
              ∙ ap (λ o. decided (dials_by o)) (cmp_bytes-opposite ia ib)),
      )
