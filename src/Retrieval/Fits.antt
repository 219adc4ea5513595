-- ===== src/Retrieval/Fits.antt =====
-- Whether the whole snapshot can be read at once: the answer of `auto_read_eligibility` against what
-- `read` does.
use mathlib.Core.Path.{subst}
use failure_resolver.Prelude.Int.{pos}
use failure_resolver.Prelude.{
  ℕ, ◌+◌, ◌≤◌, ◌≡◌, refl, ◌∙◌, String, Bool, true, false, ◌||◌, none, some, List, [], ◌∷◌, ltb,
  str_eq, eq_iff, if◌then◌else◌, is_some, strip, len, is_empty, length, any, All, map, arith,
}
use failure_resolver.Json.{Json, str, arr, Items, nil, cons, mem}
use failure_resolver.Retrieval.{
  over_budget, Result, ok, err, ◌>>=◌, ◌>>◌, raise_if, IndexedMemory, MemoryReadResult,
  max_read_documents, max_total_read_chars, validated_budget, collect_ids, validated_memory_ids,
  by_id, result_of, read_each, read, AutoReadEligibility, ids_of, chars_of, any_too_long,
  auto_read_eligibility, eligibility_within, refused, accepted, too_many_documents,
  content_too_large,
}

-- The identifiers as they are passed to `read`.
abbrev pub texts : List String → Items
texts [] = nil
texts (k ∷ ks) = cons (str k) (texts ks)

-- The identifiers of the snapshot are trimmed, not empty, and differ.
abbrev pub IsSnapshot : List IndexedMemory → Type 0
IsSnapshot [] = Unit
IsSnapshot (e ∷ es) =
    (strip e.memory_id ≡ e.memory_id)
    × (is_empty e.memory_id ≡ false)
    × All (λ x. str_eq e.memory_id x.memory_id ≡ false) es
    × IsSnapshot es

abbrev Unseen : List String → List IndexedMemory → Type 0
Unseen seen es = All (λ x. mem x.memory_id seen ≡ false) es

Unseen-cons :
    (k : String) (seen : List String) (es : List IndexedMemory)
    → All (λ x. str_eq k x.memory_id ≡ false) es
    → Unseen seen es
    → Unseen (k ∷ seen) es
unfolding mem
Unseen-cons k seen [] d u = tt
Unseen-cons k seen (e ∷ es) d u = (ground (arith, d.0, u.0), Unseen-cons k seen es d.1 u.1)

collect_ids-texts :
    (seen : List String) (es : List IndexedMemory)
    → IsSnapshot es
    → Unseen seen es
    → collect_ids seen (texts (ids_of es)) ≡ ok (ids_of es)
unfolding collect_ids
collect_ids-texts seen [] s u = refl
collect_ids-texts seen (e ∷ es) (trimmed, there_is, differ, s) u =
    rw
      (
        trimmed,
        there_is,
        u.0,
        collect_ids-texts (e.memory_id ∷ seen) es s (Unseen-cons e.memory_id seen es differ u.1),
      )
      refl

never_seen : (es : List IndexedMemory) → Unseen [] es
unfolding mem
never_seen [] = tt
never_seen (e ∷ es) = (refl, never_seen es)

-- Each of the entries stands in the snapshot under its identifier.
abbrev Stands : List IndexedMemory → List IndexedMemory → Type 0
Stands entries es = All (λ e. by_id e.memory_id entries ≡ some e) es

by_id-differ :
    (k : String) (es : List IndexedMemory)
    → All (λ x. str_eq k x.memory_id ≡ false) es
    → by_id k es ≡ none
unfolding by_id
by_id-differ k [] d = refl
by_id-differ k (e ∷ es) d =
    ground (arith, d.0, by_id-differ k es d.1, eq_iff k e.memory_id, eq_iff e.memory_id k)

Stands-cons :
    (e : IndexedMemory) (entries es : List IndexedMemory)
    → Stands entries es
    → Stands (e ∷ entries) es
unfolding by_id
Stands-cons e entries [] s = tt
Stands-cons e entries (x ∷ es) s = (rw s.0 refl, Stands-cons e entries es s.1)

IsSnapshot-Stands : (es : List IndexedMemory) → IsSnapshot es → Stands es es
unfolding by_id
IsSnapshot-Stands [] s = tt
IsSnapshot-Stands (e ∷ es) (trimmed, there_is, differ, s) = (
  rw (by_id-differ e.memory_id es differ, (eq_iff e.memory_id e.memory_id).1 refl) refl,
  Stands-cons e es es (IsSnapshot-Stands es s),
)

all_known :
    (entries es : List IndexedMemory)
    → Stands entries es
    → any (λ k. if is_some (by_id k entries) then false else true) (ids_of es) ≡ false
all_known entries [] s = refl
all_known entries (e ∷ es) s = rw (s.0, all_known entries es s.1) refl

-- The loop of `read` stops exactly where one entry or the sum is over its limit.
read_each-ids :
    (entries : List IndexedMemory) (budget total : ℕ) (es : List IndexedMemory)
    → Stands entries es
    → total ≤ budget
    → read_each entries budget total (ids_of es) ≡ (
        if any_too_long es || ltb budget (total + chars_of es)
        then err over_budget
        else ok (map result_of es))
unfolding read_each any_too_long chars_of
read_each-ids entries budget total [] s fits = ground arith
read_each-ids entries budget total (e ∷ es) s fits =
    rw (s.0, read_each)
      (ground (arith, read_each-ids entries budget (total + len e.markdown) es s.1))

-- A budget is at least 1.
validated_budget-le :
    (limit : ℕ) (v : Json) {n : ℕ} → validated_budget limit v ≡ ok n → (1 ≤ n) × (n ≤ limit)
unfolding validated_budget
validated_budget-le limit (Json.int (pos n)) h = ground arith
validated_budget-le limit Json.null h = cc
validated_budget-le limit _ h = cc

from_zero : (n : ℕ) → 0 + n ≡ n
from_zero n = omega arith

-- `read` of all identifiers, once the budgets are known.
read_all :
    (entries : List IndexedMemory) (documents characters : Json) (d c : ℕ)
    → IsSnapshot entries
    → validated_budget max_read_documents documents ≡ ok d
    → validated_budget max_total_read_chars characters ≡ ok c
    → read entries (arr (texts (ids_of entries))) documents characters ≡ (
        if ltb d (length (ids_of entries))
        then err over_budget
        else if any_too_long entries || ltb c (chars_of entries)
        then err over_budget
        else ok (map result_of entries))
unfolding read validated_memory_ids
read_all entries documents characters d c s ed ec =
    let stands = IsSnapshot-Stands entries s in
    rw
      (
        collect_ids-texts [] entries s (never_seen entries),
        ed,
        ec,
        all_known entries entries stands,
        read_each-ids entries c 0 entries stands (omega arith),
        from_zero,
      )
      (at (ltb d (length (ids_of entries))) _)
  where
    at :
        (b : Bool) (r : Result (List MemoryReadResult))
        → (raise_if b over_budget >> r) ≡ (if b then err over_budget else r)
    at true r = refl
    at false r = refl

-- The answer says whether all entries can be read at once, and names them only then.
abbrev pub Answers : List IndexedMemory → Json → Json → AutoReadEligibility → Type 0
Answers entries documents characters answer =
    (read entries (arr (texts (ids_of entries))) documents characters
      ≡ (if answer.is_eligible then ok (map result_of entries) else err over_budget))
    × (answer.memory_ids ≡ (if answer.is_eligible then ids_of entries else []))

agrees :
    (many long : Bool) (total : ℕ) (ids : List String) (r : Result (List MemoryReadResult))
    → let answer : AutoReadEligibility =
        if many
        then refused total too_many_documents
        else if long
        then refused total content_too_large
        else accepted total ids in
      ((if many then err over_budget else if long then err over_budget else r)
        ≡ (if answer.is_eligible then r else err over_budget))
      × (answer.memory_ids ≡ (if answer.is_eligible then ids else []))
agrees true long total ids r = (refl, refl)
agrees false true total ids r = (refl, refl)
agrees false false total ids r = (refl, refl)

eligibility_within-Answers :
    (entries : List IndexedMemory) (documents characters : Json) (d c : ℕ)
    → IsSnapshot entries
    → validated_budget max_read_documents documents ≡ ok d
    → validated_budget max_total_read_chars characters ≡ ok c
    → Answers entries documents characters (eligibility_within entries d c)
unfolding eligibility_within
eligibility_within-Answers entries documents characters d c s ed ec =
    let (e, ids) =
      agrees (ltb d (length (ids_of entries))) (any_too_long entries || ltb c (chars_of entries))
        (chars_of entries) (ids_of entries) (ok (map result_of entries)) in
    (read_all entries documents characters d c s ed ec ∙ e, ids)

ok_injective : {A : Type 0} {a b : A} → ok a ≡ ok b → a ≡ b
ok_injective e = cc

-- If the budgets are valid, the answer on the automatic reading of a snapshot is what `read` does: where
-- the answer is positive, to read all its identifiers with the same budgets returns every entry, in
-- order; where it is negative, that is refused for the budget. The identifiers that the answer names are
-- all of them in the first case, none in the second. The identifiers of the snapshot are trimmed, not
-- empty, and differ.
pub auto_read_eligibility-read :
    (entries : List IndexedMemory) (documents characters : Json) {answer : AutoReadEligibility}
    → IsSnapshot entries
    → auto_read_eligibility entries documents characters ≡ ok answer
    → Answers entries documents characters answer
unfolding auto_read_eligibility
auto_read_eligibility-read entries documents characters {answer} s h =
    at (validated_budget max_read_documents documents)
      (validated_budget max_total_read_chars characters) refl refl h
  where
    at :
        (rd rc : Result ℕ)
        → validated_budget max_read_documents documents ≡ rd
        → validated_budget max_total_read_chars characters ≡ rc
        → (rd >>= λ d. rc >>= λ c. ok (eligibility_within entries d c)) ≡ ok answer
        → Answers entries documents characters answer
    at (ok d) (ok c) ed ec h =
        subst (Answers entries documents characters) (ok_injective h)
          (eligibility_within-Answers entries documents characters d c s ed ec)
    at (ok d) (err e) ed ec h = cc
    at (err e) rc ed ec h = cc
