-- ===== src/Episode/Clean.antt =====
-- What a sanitized value is like.
use failure_resolver.Prelude.{
  ℕ, ◌+◌, ◌≡◌, ◌≤◌, refl, String, true, false, Bool-cases, inl, inr, arith, len, ltb, ap, ◌∙◌,
}
use failure_resolver.Json.{
  Json, null, bool, int, float, str, arr, obj, Items, nil, cons, Fields, end, field,
}
use failure_resolver.Json.Equal.{field_count}
use failure_resolver.Json.Bounds.{is_finite}
use failure_resolver.Errors.{
  Result, ok, value_error, ◌>>=◌, Ensures, returns, raises, bind-Ensures, raise_if-Ensures,
  Ensures-ok, >>=-ok, raise_if-ok,
}
use failure_resolver.Runtime.{Runtime}
use failure_resolver.Recovery.Session.{item_count}
use failure_resolver.Episode.{
  max_string_chars, max_collection_items, max_depth, is_sensitive_key, sanitize_value,
  sanitize_fields, sanitize_items,
}

module _ (py : Runtime) where
  -- A value at a depth that is within the bounds everywhere and has no sensitive key anywhere.
  unfoldable mutual
    pub Clean : ℕ → Json → Type 0
    Clean d (str s) = (d ≤ max_depth) × (len s ≤ max_string_chars)
    Clean d (float f) = (d ≤ max_depth) × (is_finite f ≡ true)
    Clean d (obj o) =
        (d ≤ max_depth) × (field_count o ≤ max_collection_items) × CleanFields (d + 1) o
    Clean d (arr xs) =
        (d ≤ max_depth) × (item_count xs ≤ max_collection_items) × CleanItems (d + 1) xs
    Clean d null = d ≤ max_depth
    Clean d (bool b) = d ≤ max_depth
    Clean d (int n) = d ≤ max_depth

    pub CleanFields : ℕ → Fields → Type 0
    CleanFields d end = Unit
    CleanFields d (field k v o) = (is_sensitive_key py k ≡ false) × Clean d v × CleanFields d o

    pub CleanItems : ℕ → Items → Type 0
    CleanItems d nil = Unit
    CleanItems d (cons x xs) = Clean d x × CleanItems d xs

  -- What is kept of an object has no more fields than the object.
  KeptFields : ℕ → Fields → Fields → Type 0
  unfolding CleanFields
  KeptFields d o o' = CleanFields d o' × (field_count o' ≤ field_count o)

  KeptItems : ℕ → Items → Items → Type 0
  unfolding CleanItems
  KeptItems d xs xs' = CleanItems d xs' × (item_count xs' ≡ item_count xs)

  shorter :
      (d : ℕ) (k : String) (v : Json) (o : Fields) {r : Result Fields}
      → Ensures (KeptFields d o) r
      → Ensures (KeptFields d (field k v o)) r
  unfolding KeptFields field_count
  shorter d k v o (returns h) = returns (h.0, ground (arith, h.1))
  shorter d k v o (raises e) = raises e

  mutual
    unfolding sanitize_value sanitize_fields sanitize_items Clean CleanFields CleanItems KeptFields
        KeptItems field_count item_count

    sanitize_value-Ensures : (v : Json) (d : ℕ) → Ensures (Clean d) (sanitize_value py v d)
    sanitize_value-Ensures null d = raise_if-Ensures _ _ λ h. returns (ground arith)
    sanitize_value-Ensures (bool b) d = raise_if-Ensures _ _ λ h. returns (ground arith)
    sanitize_value-Ensures (int n) d = raise_if-Ensures _ _ λ h. returns (ground arith)
    sanitize_value-Ensures (str s) d =
        raise_if-Ensures _ _ λ h. raise_if-Ensures _ _ λ k. returns (ground arith, ground arith)
    sanitize_value-Ensures (float f) d =
        raise_if-Ensures _ _ λ h. raise_if-Ensures _ _ λ k. returns (ground arith, ground arith)
    sanitize_value-Ensures (obj o) d = raise_if-Ensures _ _ λ h. raise_if-Ensures _ _ λ k.
        bind-Ensures _ λ o' e.
          let kept = Ensures-ok (sanitize_fields-Ensures o (d + 1)) e in
          returns (ground arith, ground (arith, kept.1), kept.0)
    sanitize_value-Ensures (arr xs) d = raise_if-Ensures _ _ λ h. raise_if-Ensures _ _ λ k.
        bind-Ensures _ λ xs' e.
          let kept = Ensures-ok (sanitize_items-Ensures xs (d + 1)) e in
          returns (ground arith, ground (arith, kept.1), kept.0)

    sanitize_fields-Ensures :
        (o : Fields) (d : ℕ) → Ensures (KeptFields d o) (sanitize_fields py o d)
    sanitize_fields-Ensures end d = returns (tt, omega arith)
    sanitize_fields-Ensures (field k v o) d = elim (Bool-cases (is_sensitive_key py k)) [
      | inl secret ↦ rw (secret) (shorter d k v o (sanitize_fields-Ensures o d))
      | inr plain ↦ rw (plain) (
          bind-Ensures _ λ v' e. bind-Ensures _ λ o' e'.
            let rest = Ensures-ok (sanitize_fields-Ensures o d) e' in
            returns
              ((plain, Ensures-ok (sanitize_value-Ensures v d) e, rest.0), ground (arith, rest.1)))
    ]

    sanitize_items-Ensures :
        (xs : Items) (d : ℕ) → Ensures (KeptItems d xs) (sanitize_items py xs d)
    sanitize_items-Ensures nil d = returns (tt, refl)
    sanitize_items-Ensures (cons x xs) d = bind-Ensures _ λ x' e. bind-Ensures _ λ xs' e'.
        let rest = Ensures-ok (sanitize_items-Ensures xs d) e' in
        returns ((Ensures-ok (sanitize_value-Ensures x d) e, rest.0), ground (arith, rest.1))

  plain_field :
      (k : String) (v : Json) (o : Fields) (d : ℕ) {r : Result Fields}
      → is_sensitive_key py k ≡ false
      → (sanitize_value py v d >>= λ child.
          sanitize_fields py o d >>= λ others. ok (field k child others))
        ≡ r
      → sanitize_fields py (field k v o) d ≡ r
  unfolding sanitize_fields
  plain_field k v o d h e = rw (h) e

  mutual
    unfolding sanitize_value sanitize_fields sanitize_items Clean CleanFields CleanItems

    sanitize_value-Clean : (v : Json) (d : ℕ) → Clean d v → sanitize_value py v d ≡ ok v
    sanitize_value-Clean null d c = raise_if-ok _ _ (ground (arith, c)) refl
    sanitize_value-Clean (bool b) d c = raise_if-ok _ _ (ground (arith, c)) refl
    sanitize_value-Clean (int n) d c = raise_if-ok _ _ (ground (arith, c)) refl
    sanitize_value-Clean (str s) d c =
        raise_if-ok _ _ (ground (arith, c.0)) (raise_if-ok _ _ (ground (arith, c.1)) refl)
    sanitize_value-Clean (float f) d c =
        raise_if-ok _ _ (ground (arith, c.0)) (raise_if-ok _ _ (ground (arith, c.1)) refl)
    sanitize_value-Clean (obj o) d c = raise_if-ok _ _ (ground (arith, c.0)) (
        raise_if-ok _ _ (ground (arith, c.1))
          (>>=-ok _ o (sanitize_fields-Clean o (d + 1) c.2) refl))
    sanitize_value-Clean (arr xs) d c = raise_if-ok _ _ (ground (arith, c.0)) (
        raise_if-ok _ _ (ground (arith, c.1))
          (>>=-ok _ xs (sanitize_items-Clean xs (d + 1) c.2) refl))

    sanitize_fields-Clean : (o : Fields) (d : ℕ) → CleanFields d o → sanitize_fields py o d ≡ ok o
    sanitize_fields-Clean end d c = refl
    sanitize_fields-Clean (field k v o) d c = plain_field k v o d c.0 (
        >>=-ok _ v (sanitize_value-Clean v d c.1) (>>=-ok _ o (sanitize_fields-Clean o d c.2) refl))

    sanitize_items-Clean : (xs : Items) (d : ℕ) → CleanItems d xs → sanitize_items py xs d ≡ ok xs
    sanitize_items-Clean nil d c = refl
    sanitize_items-Clean (cons x xs) d c =
        >>=-ok _ x (sanitize_value-Clean x d c.0) (>>=-ok _ xs (sanitize_items-Clean xs d c.1) refl)

  -- A value without sensitive keys is passed as it is, or not at all.
  mutual
    unfolding sanitize_value sanitize_fields sanitize_items Clean CleanFields CleanItems

    pub sanitize_value-same :
        (v : Json) (d d' : ℕ) → Clean d v → Ensures (λ w. w ≡ v) (sanitize_value py v d')
    sanitize_value-same null d d' c = raise_if-Ensures _ _ λ h. returns refl
    sanitize_value-same (bool b) d d' c = raise_if-Ensures _ _ λ h. returns refl
    sanitize_value-same (int n) d d' c = raise_if-Ensures _ _ λ h. returns refl
    sanitize_value-same (str s) d d' c =
        raise_if-Ensures _ _ λ h. raise_if-Ensures _ _ λ k. returns refl
    sanitize_value-same (float f) d d' c =
        raise_if-Ensures _ _ λ h. raise_if-Ensures _ _ λ k. returns refl
    sanitize_value-same (obj o) d d' c = raise_if-Ensures _ _ λ h. raise_if-Ensures _ _ λ k.
        bind-Ensures _
          λ o' e. returns (ap obj (Ensures-ok (sanitize_fields-same o (d + 1) (d' + 1) c.2) e))
    sanitize_value-same (arr xs) d d' c = raise_if-Ensures _ _ λ h. raise_if-Ensures _ _ λ k.
        bind-Ensures _
          λ xs' e. returns (ap arr (Ensures-ok (sanitize_items-same xs (d + 1) (d' + 1) c.2) e))

    sanitize_fields-same :
        (o : Fields) (d d' : ℕ) → CleanFields d o → Ensures (λ w. w ≡ o) (sanitize_fields py o d')
    sanitize_fields-same end d d' c = returns refl
    sanitize_fields-same (field k v o) d d' c = rw (c.0) (
        bind-Ensures _ λ v' e. bind-Ensures _ λ o' e'. returns (
          ap (λ x. field k x o') (Ensures-ok (sanitize_value-same v d d' c.1) e)
          ∙ ap (field k v) (Ensures-ok (sanitize_fields-same o d d' c.2) e')))

    sanitize_items-same :
        (xs : Items) (d d' : ℕ) → CleanItems d xs → Ensures (λ w. w ≡ xs) (sanitize_items py xs d')
    sanitize_items-same nil d d' c = returns refl
    sanitize_items-same (cons x xs) d d' c = bind-Ensures _ λ x' e. bind-Ensures _ λ xs' e'.
        returns (
          ap (λ y. cons y xs') (Ensures-ok (sanitize_value-same x d d' c.0) e)
          ∙ ap (cons x) (Ensures-ok (sanitize_items-same xs d d' c.1) e'))

  -- So is an object of two such values, under plain keys.
  pub pair-same :
      (j k : String) (a b : Json)
      → is_sensitive_key py j ≡ false
      → is_sensitive_key py k ≡ false
      → Clean 0 a
      → Clean 0 b
      → Ensures
          (λ w. w ≡ obj (field j a (field k b end)))
          (sanitize_value py (obj (field j a (field k b end))) 0)
  unfolding sanitize_value sanitize_fields
  pair-same j k a b plain plain' c c' = raise_if-Ensures (ltb max_depth 0) value_error λ h.
      raise_if-Ensures (ltb max_collection_items (field_count (field j a (field k b end))))
        value_error
        λ h'. rw (plain, plain') (bind-Ensures _ λ o e. returns (ap obj (Ensures-ok inner e)))
    where
      inner :
          Ensures
            (λ o. o ≡ field j a (field k b end))
            (sanitize_value py a 1 >>= λ x.
              (sanitize_value py b 1 >>= λ y. ok end >>= λ others. ok (field k y others))
              >>= λ others. ok (field j x others))
      inner = bind-Ensures _ λ x e. bind-Ensures _ λ o e'. returns (
          ap (λ x. field j x o) (Ensures-ok (sanitize_value-same a 0 1 c) e)
          ∙ ap (field j a) (Ensures-ok second e'))
        where
          second :
              Ensures
                (λ o. o ≡ field k b end)
                (sanitize_value py b 1 >>= λ y. ok end >>= λ others. ok (field k y others))
          second = bind-Ensures _ λ y e. bind-Ensures _ λ o e'. returns (
              ap (λ y. field k y o) (Ensures-ok (sanitize_value-same b 0 1 c') e)
              ∙ ap (field k b) (Ensures-ok {P = λ o. o ≡ end} (returns refl) e'))

  -- A sanitized value has no sensitive key at any depth, at most 4096 entries in each collection, at
  -- most 32000 characters in each text, only finite numbers, and nothing deeper than 16; and to
  -- sanitize it again at its place gives it back.
  pub sanitize_value-Clean_fixed :
      (v v' : Json) (d : ℕ)
      → sanitize_value py v d ≡ ok v'
      → Clean d v' × (sanitize_value py v' d ≡ ok v')
  sanitize_value-Clean_fixed v v' d e =
      let c = Ensures-ok (sanitize_value-Ensures v d) e in (c, sanitize_value-Clean v' d c)
