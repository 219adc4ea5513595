-- ===== src/Json/Bounds/Exact.antt =====
-- What `_validate_json` accepts, said by the number of nodes, the height and the numbers of a value.
use failure_resolver.Prelude.{
  ℕ, ◌+◌, ◌≡◌, ◌≤◌, ◌↔◌, refl, ap, ◌∙◌, &&-true, Bool, true, ◌&&◌, not, arith,
}
use failure_resolver.Json.{
  Float, Json, null, bool, int, float, str, arr, obj, Items, nil, cons, Fields, end, field,
}
use failure_resolver.Errors.{
  Result, ok, contract, ◌>>=◌, >>=-ok, ◌>>◌, Ensures, returns, raises, bind-Ensures,
  raise_if-Ensures, Ensures-ok, raise_if,
}
use failure_resolver.Json.Bounds.{
  max_nodes, max_depth, is_finite, count_node, walk, walk_items, walk_fields, validate_json,
}
use failure_resolver.Json.Bounds.Size.{
  larger, nodes, nodes_items, nodes_fields, height, height_items, height_fields, all_finite,
  all_finite_items, all_finite_fields,
}

-- What a walk from depth `d` and count `n` to count `m` has found.
record Walked (size high : ℕ) (fine : Bool) (d n m : ℕ) : Type 0 where
  total : m ≡ n + size
  few : m ≤ max_nodes
  shallow : d + high ≤ max_depth
  finite : fine ≡ true

count_node-Ensures : (d n : ℕ) → Ensures (Walked 1 0 true d n) (count_node d n)
unfolding count_node
count_node-Ensures d n = raise_if-Ensures _ _ λ h.
    returns (record { total = refl; few = ground arith; shallow = ground arith; finite = refl })

nested-Walked :
    (size high : ℕ) (fine : Bool) (d n n' : ℕ) {r : Result ℕ}
    → Walked 1 0 true d n n'
    → Ensures (Walked size high fine d n') r
    → Ensures (Walked (1 + size) high fine d n) r
nested-Walked size high fine d n n' w (returns k) = returns (record {
  total = ground (arith, w.total, k.total);
  few = k.few;
  shallow = k.shallow;
  finite = k.finite;
})
nested-Walked size high fine d n n' w (raises e) = raises e

then-Walked :
    (a b high high' : ℕ) (fine fine' : Bool) (d n n' : ℕ) {r : Result ℕ}
    → Walked a high fine (d + 1) n n'
    → Ensures (Walked b high' fine' d n') r
    → Ensures (Walked (a + b) (larger (1 + high) high') (fine && fine') d n) r
unfolding larger
then-Walked a b high high' fine fine' d n n' w (returns k) = returns (record {
  total = ground (arith, w.total, k.total);
  few = k.few;
  shallow = ground (arith, w.shallow, k.shallow);
  finite = ground (arith, w.finite, k.finite);
})
then-Walked a b high high' fine fine' d n n' w (raises e) = raises e

mutual
  unfolding walk nodes height all_finite

  walk-Ensures :
      (v : Json) (d n : ℕ) → Ensures (Walked (nodes v) (height v) (all_finite v) d n) (walk v d n)
  walk-Ensures null d n = count_node-Ensures d n
  walk-Ensures (bool b) d n = count_node-Ensures d n
  walk-Ensures (int i) d n = count_node-Ensures d n
  walk-Ensures (str s) d n = count_node-Ensures d n
  walk-Ensures (float f) d n = bind-Ensures _ λ m e. raise_if-Ensures _ _ λ h.
      let w = Ensures-ok (count_node-Ensures d n) e in
      returns (record { total = w.total; few = w.few; shallow = w.shallow; finite = ground arith })
  walk-Ensures (arr xs) d n = bind-Ensures _ λ m e.
      let w = Ensures-ok (count_node-Ensures d n) e in
      nested-Walked _ _ _ d n m w (walk_items-Ensures xs d m w.few w.shallow)
  walk-Ensures (obj o) d n = bind-Ensures _ λ m e.
      let w = Ensures-ok (count_node-Ensures d n) e in
      nested-Walked _ _ _ d n m w (walk_fields-Ensures o d m w.few w.shallow)

  walk_items-Ensures :
      (xs : Items) (d n : ℕ)
      → n ≤ max_nodes
      → d + 0 ≤ max_depth
      → Ensures
          (Walked (nodes_items xs) (height_items xs) (all_finite_items xs) d n)
          (walk_items xs (d + 1) n)
  walk_items-Ensures nil d n few shallow =
      returns (record { total = ground arith; few = few; shallow = shallow; finite = refl })
  walk_items-Ensures (cons x xs) d n few shallow = bind-Ensures _ λ m e.
      let w = Ensures-ok (walk-Ensures x (d + 1) n) e in
      then-Walked (nodes x) (nodes_items xs) (height x) (height_items xs) (all_finite x)
        (all_finite_items xs) d n m w (walk_items-Ensures xs d m w.few shallow)

  walk_fields-Ensures :
      (o : Fields) (d n : ℕ)
      → n ≤ max_nodes
      → d + 0 ≤ max_depth
      → Ensures
          (Walked (nodes_fields o) (height_fields o) (all_finite_fields o) d n)
          (walk_fields o (d + 1) n)
  walk_fields-Ensures end d n few shallow =
      returns (record { total = ground arith; few = few; shallow = shallow; finite = refl })
  walk_fields-Ensures (field k v o) d n few shallow = bind-Ensures _ λ m e.
      let w = Ensures-ok (walk-Ensures v (d + 1) n) e in
      then-Walked (nodes v) (nodes_fields o) (height v) (height_fields o) (all_finite v)
        (all_finite_fields o) d n m w (walk_fields-Ensures o d m w.few shallow)

is_finite-ok :
    (f : Float) (m : ℕ)
    → is_finite f ≡ true
    → (raise_if (not (is_finite f)) contract >> ok m) ≡ ok m
unfolding ◌>>=◌
is_finite-ok f m h = rw h refl

count_node-ok : (d n : ℕ) → n + 1 ≤ max_nodes → d ≤ max_depth → count_node d n ≡ ok (n + 1)
unfolding count_node ◌>>=◌
count_node-ok d n few shallow = ground arith

first_few : (n a b : ℕ) {k : ℕ} → n + (a + b) ≤ k → n + a ≤ k
first_few n a b h = omega (arith, h)

rest_few : (n a b : ℕ) {k : ℕ} → n + (a + b) ≤ k → n + a + b ≤ k
rest_few n a b h = omega (arith, h)

regroup : (n a b : ℕ) → n + a + b ≡ n + (a + b)
regroup n a b = omega arith

first_shallow : (d h h' : ℕ) {k : ℕ} → d + larger (1 + h) h' ≤ k → d + 1 + h ≤ k
unfolding larger
first_shallow d h h' e = ground arith

rest_shallow : (d h h' : ℕ) {k : ℕ} → d + larger (1 + h) h' ≤ k → d + h' ≤ k
unfolding larger
rest_shallow d h h' e = ground arith

mutual
  unfolding walk nodes height all_finite

  walk-ok :
      (v : Json) (d n : ℕ)
      → n + nodes v ≤ max_nodes
      → d + height v ≤ max_depth
      → all_finite v ≡ true
      → walk v d n ≡ ok (n + nodes v)
  walk-ok null d n few shallow fine = count_node-ok d n few (omega (arith, shallow))
  walk-ok (bool b) d n few shallow fine = count_node-ok d n few (omega (arith, shallow))
  walk-ok (int i) d n few shallow fine = count_node-ok d n few (omega (arith, shallow))
  walk-ok (str s) d n few shallow fine = count_node-ok d n few (omega (arith, shallow))
  walk-ok (float f) d n few shallow fine =
      >>=-ok _ (n + 1) (count_node-ok d n few (omega (arith, shallow)))
        (is_finite-ok f (n + 1) fine)
  walk-ok (arr xs) d n few shallow fine =
      >>=-ok _ (n + 1)
        (count_node-ok d n (first_few n 1 (nodes_items xs) few) (omega (arith, shallow)))
        (walk_items-ok xs d (n + 1) (rest_few n 1 (nodes_items xs) few) shallow fine
          ∙ ap ok (regroup n 1 (nodes_items xs)))
  walk-ok (obj o) d n few shallow fine =
      >>=-ok _ (n + 1)
        (count_node-ok d n (first_few n 1 (nodes_fields o) few) (omega (arith, shallow)))
        (walk_fields-ok o d (n + 1) (rest_few n 1 (nodes_fields o) few) shallow fine
          ∙ ap ok (regroup n 1 (nodes_fields o)))

  walk_items-ok :
      (xs : Items) (d n : ℕ)
      → n + nodes_items xs ≤ max_nodes
      → d + height_items xs ≤ max_depth
      → all_finite_items xs ≡ true
      → walk_items xs (d + 1) n ≡ ok (n + nodes_items xs)
  walk_items-ok nil d n few shallow fine = ap ok (omega arith)
  walk_items-ok (cons x xs) d n few shallow fine =
      >>=-ok _ (n + nodes x)
        (walk-ok x (d + 1) n (first_few n (nodes x) (nodes_items xs) few)
          (first_shallow d (height x) (height_items xs) shallow) (&&-true _ _ fine).0)
        (walk_items-ok xs d (n + nodes x) (rest_few n (nodes x) (nodes_items xs) few)
            (rest_shallow d (height x) (height_items xs) shallow) (&&-true _ _ fine).1
          ∙ ap ok (regroup n (nodes x) (nodes_items xs)))

  walk_fields-ok :
      (o : Fields) (d n : ℕ)
      → n + nodes_fields o ≤ max_nodes
      → d + height_fields o ≤ max_depth
      → all_finite_fields o ≡ true
      → walk_fields o (d + 1) n ≡ ok (n + nodes_fields o)
  walk_fields-ok end d n few shallow fine = ap ok (omega arith)
  walk_fields-ok (field k v o) d n few shallow fine =
      >>=-ok _ (n + nodes v)
        (walk-ok v (d + 1) n (first_few n (nodes v) (nodes_fields o) few)
          (first_shallow d (height v) (height_fields o) shallow) (&&-true _ _ fine).0)
        (walk_fields-ok o d (n + nodes v) (rest_few n (nodes v) (nodes_fields o) few)
            (rest_shallow d (height v) (height_fields o) shallow) (&&-true _ _ fine).1
          ∙ ap ok (regroup n (nodes v) (nodes_fields o)))

-- A value is accepted exactly if it has at most 2000 values in it, itself included, none of them
-- lies more than 12 levels below it, and no number in it is infinite or not a number.
pub validate_json-exact :
    (v : Json)
    → (validate_json v ≡ ok tt)
      ↔ ((nodes v ≤ max_nodes) × (height v ≤ max_depth) × (all_finite v ≡ true))
unfolding validate_json
validate_json-exact v = (
  λ h. Ensures-ok accepted h,
  λ b. >>=-ok _ (0 + nodes v) (walk-ok v 0 0 (ground (arith, b.0)) (ground (arith, b.1)) b.2) refl,
)
  where
    accepted :
        Ensures
          (λ _. (nodes v ≤ max_nodes) × (height v ≤ max_depth) × (all_finite v ≡ true))
          (validate_json v)
    accepted = bind-Ensures _ λ m e.
        let w = Ensures-ok (walk-Ensures v 0 0) e in
        returns (ground (arith, w.total, w.few), ground (arith, w.shallow), w.finite)
