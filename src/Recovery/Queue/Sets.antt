-- ===== src/Recovery/Queue/Sets.antt =====
-- Sets of failures as lists without duplicates: what `add` and `discard` leave in them.
use mathlib.Core.Path.{subst}
use failure_resolver.Prelude.{
  sym, ◌∙◌, ◌≡◌, ◌≤◌, ◌<◌, refl, String, true, false, List, [], ◌∷◌, str_eq, eq_iff, length, arith,
  Bool-cases, inl, inr,
}
use failure_resolver.Json.{mem}
use failure_resolver.Recovery.Queue.{add, discard}

-- No text stands twice in the list.
abbrev pub Distinct : List String → Type 0
Distinct [] = Unit
Distinct (x ∷ xs) = (mem x xs ≡ false) × Distinct xs

-- Every text of the first list is in the second.
abbrev pub Within : List String → List String → Type 0
Within xs ys = (x : String) → mem x xs ≡ true → mem x ys ≡ true

true-not_false : true ≡ false → ⊥
true-not_false h = cc

pub str_eq_refl : (x : String) → str_eq x x ≡ true
str_eq_refl x = (eq_iff x x).1 refl

pub str_eq→eq : (x y : String) → str_eq x y ≡ true → x ≡ y
str_eq→eq x y h = (eq_iff x y).0 h

pub mem-discard_from :
    (x y : String) (xs : List String) → mem x (discard y xs) ≡ true → mem x xs ≡ true
unfolding mem discard
mem-discard_from x y [] h = cc
mem-discard_from x y (z ∷ zs) h = elim (Bool-cases (str_eq z y)) [
  | inl same ↦ ground (arith, mem-discard_from x y zs)
  | inr other ↦ ground (arith, mem-discard_from x y zs)
]

pub mem-discard_keeps :
    (x y : String) (xs : List String)
    → str_eq y x ≡ false
    → mem x xs ≡ true
    → mem x (discard y xs) ≡ true
unfolding mem discard
mem-discard_keeps x y [] other h = cc
mem-discard_keeps x y (z ∷ zs) other h = elim (Bool-cases (str_eq z y)) [
  | inl same ↦
      rw (same, discard) (mem-discard_keeps x y zs other (rw (str_eq→eq z y same, other, mem) at h))
  | inr apart ↦ elim (Bool-cases (str_eq z x)) [
    | inl hit ↦ rw (apart, discard, hit, mem) refl
    | inr miss ↦
        rw (apart, discard, miss, mem) (mem-discard_keeps x y zs other (rw (miss, mem) at h))
  ]
]

pub mem-discard_gone : (y : String) (xs : List String) → mem y (discard y xs) ≡ false
unfolding mem discard
mem-discard_gone y [] = refl
mem-discard_gone y (z ∷ zs) = elim (Bool-cases (str_eq z y)) [
  | inl same ↦ rw (same, discard) (mem-discard_gone y zs)
  | inr other ↦ rw (other, discard, other, mem) (mem-discard_gone y zs)
]

-- What is left after a discard is another text.
pub mem-discard_other :
    (x y : String) (xs : List String) → mem x (discard y xs) ≡ true → str_eq y x ≡ false
mem-discard_other x y xs h = elim (Bool-cases (str_eq y x)) [
  | inl same ↦ absurd (
      true-not_false (
        sym (subst (λ z. mem z (discard y xs) ≡ true) (sym (str_eq→eq y x same)) h)
        ∙ mem-discard_gone y xs))
  | inr other ↦ other
]

pub discard-Distinct : (y : String) (xs : List String) → Distinct xs → Distinct (discard y xs)
unfolding discard
discard-Distinct y [] d = tt
discard-Distinct y (z ∷ zs) d = elim (Bool-cases (str_eq z y)) [
  | inl same ↦ rw (same, discard) (discard-Distinct y zs d.1)
  | inr other ↦ rw (other, discard) (absent, discard-Distinct y zs d.1)
]
  where
    absent : mem z (discard y zs) ≡ false
    absent = elim (Bool-cases (mem z (discard y zs))) [
      | inl there ↦ absurd (true-not_false (sym (mem-discard_from z y zs there) ∙ d.0))
      | inr gone ↦ gone
    ]

pub length-discard_le : (y : String) (xs : List String) → length (discard y xs) ≤ length xs
unfolding discard
length-discard_le y [] = ground arith
length-discard_le y (z ∷ zs) = ground (arith, length-discard_le y zs)

-- The discarded text leaves a free place.
pub length-discard_lt :
    (y : String) (xs : List String) → mem y xs ≡ true → length (discard y xs) < length xs
unfolding discard mem
length-discard_lt y [] h = cc
length-discard_lt y (z ∷ zs) h = ground (arith, length-discard_lt y zs, length-discard_le y zs)

pub mem-add : (x : String) (xs : List String) → mem x (add x xs) ≡ true
unfolding mem add
mem-add x xs = elim (Bool-cases (mem x xs)) [
  | inl there ↦ rw (there, add) there
  | inr gone ↦ rw (gone, add, str_eq_refl x, mem) refl
]

pub mem-cons_keeps : (x y : String) (xs : List String) → mem x xs ≡ true → mem x (y ∷ xs) ≡ true
unfolding mem
mem-cons_keeps x y xs h = elim (Bool-cases (str_eq y x)) [
  | inl same ↦ rw (same, mem) refl
  | inr other ↦ rw (other, mem) h
]

pub add-Within :
    (y : String) (xs ys : List String) → Within xs ys → mem y ys ≡ true → Within (add y xs) ys
unfolding mem add
add-Within y xs ys w h x m = elim (Bool-cases (mem y xs)) [
  | inl there ↦ w x (rw (there, add) at m)
  | inr gone ↦ elim (Bool-cases (str_eq y x)) [
    | inl same ↦ subst (λ z. mem z ys ≡ true) (str_eq→eq y x same) h
    | inr other ↦ w x (rw (gone, add, other, mem) at m)
  ]
]

pub discard-Within :
    (y : String) (xs ys : List String) → Within xs ys → Within (discard y xs) (discard y ys)
discard-Within y xs ys w x m =
    mem-discard_keeps x y ys (mem-discard_other x y xs m) (w x (mem-discard_from x y xs m))
