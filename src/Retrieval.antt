-- ===== src/Retrieval.antt =====
-- Reading from the snapshot of memories, retrieval.py: `MemoryRetrievalIndex.read` and
-- `auto_read_eligibility`.
pub mod Fits
pub mod Reads
mod Tests
use failure_resolver.Prelude.{
  ℕ, ◌+◌, String, Bool, true, false, ◌&&◌, ◌||◌, Option, none, some, List, [], ◌∷◌, leb, ltb,
  str_eq, if◌then◌else◌, is_some, strip, len, is_empty, length, any, all, map,
}
use failure_resolver.Prelude.Int.{pos}
use failure_resolver.Json.{Json, int, str, arr, Items, nil, cons, mem}

-- RetrievalError, RetrievalBudgetError, UnknownMemoryError
pub data Failure : Type 0 where
  invalid over_budget unknown_memory : Failure

pub data Result (A : Type 0) : Type 0 where
  ok : A → Result A
  err : Failure → Result A

infixl 5 ◌>>=◌ ◌>>◌
abbrev pub ◌>>=◌ : {A B : Type 0} → Result A → (A → Result B) → Result B
ok a >>= f = f a
err e >>= f = err e

abbrev pub ◌>>◌ : {B : Type 0} → Result (Unit {0}) → Result B → Result B
m >> k = m >>= λ _. k

abbrev pub raise_if : Bool → Failure → Result (Unit {0})
raise_if true e = err e
raise_if false e = ok tt

-- `_IndexedMemory`, without the fields that the search reads. A frozen value is the value itself.
pub record IndexedMemory : Type 0 where
  pub memory_id : String
  pub markdown : String
  pub metadata : Json

-- `MemoryReadResult`
pub record MemoryReadResult : Type 0 where
  pub memory_id : String
  pub markdown : String
  pub char_count : ℕ
  pub metadata : Json

abbrev pub max_read_documents : ℕ
max_read_documents = 4

abbrev pub max_memory_read_chars : ℕ
max_memory_read_chars = 200_000

abbrev pub max_total_read_chars : ℕ
max_total_read_chars = 300_000

-- An integer, and no Boolean, from 1 to the hard limit.
unfoldable pub validated_budget : ℕ → Json → Result ℕ
validated_budget hard_limit (int (pos n)) =
    if leb 1 n && leb n hard_limit then ok n else err over_budget
validated_budget hard_limit _ = err over_budget

-- The loop of `_validated_memory_ids`.
unfoldable pub collect_ids : List String → Items → Result (List String)
collect_ids seen nil = ok []
collect_ids seen (cons (str s) xs) =
    let canonical = strip s in
    let rest = collect_ids (canonical ∷ seen) xs >>= (λ ids. ok (canonical ∷ ids)) in
    if is_empty canonical || mem canonical seen then err invalid else rest
collect_ids seen (cons _ xs) = err invalid

unfoldable pub validated_memory_ids : Json → Result (List String)
unfolding collect_ids
validated_memory_ids (arr xs) = collect_ids [] xs
validated_memory_ids _ = err invalid

-- `self._by_id.get(memory_id)`: the last entry of an identifier stands.
unfoldable pub by_id : String → List IndexedMemory → Option IndexedMemory
by_id k [] = none
by_id k (e ∷ es) =
    let later = by_id k es in
    if is_some later then later else if str_eq e.memory_id k then some e else none

abbrev pub result_of : IndexedMemory → MemoryReadResult
result_of e = record {
  memory_id = e.memory_id;
  markdown = e.markdown;
  char_count = len e.markdown;
  metadata = e.metadata;
}

-- The loop of `read`, over identifiers that are known.
unfoldable pub read_each : List IndexedMemory → ℕ → ℕ → List String → Result (List MemoryReadResult)
read_each entries budget total [] = ok []
read_each entries budget total (k ∷ ks) = elim (by_id k entries) [
  | none ↦ err unknown_memory
  | some e ↦ do
    raise_if (ltb max_memory_read_chars (len e.markdown)) over_budget
    raise_if (ltb budget (total + len e.markdown)) over_budget
    results ← read_each entries budget (total + len e.markdown) ks
    ok (result_of e ∷ results)
]

-- `MemoryRetrievalIndex.read`
unfoldable pub read : List IndexedMemory → Json → Json → Json → Result (List MemoryReadResult)
read entries memory_ids max_documents max_total_chars = do
  requested ← validated_memory_ids memory_ids
  document_budget ← validated_budget max_read_documents max_documents
  character_budget ← validated_budget max_total_read_chars max_total_chars
  raise_if (ltb document_budget (length requested)) over_budget
  raise_if (any (λ k. if is_some (by_id k entries) then false else true) requested) unknown_memory
  read_each entries character_budget 0 requested

pub data Reason : Type 0 where
  too_many_documents content_too_large eligible : Reason

-- `AutoReadEligibility`, with its field `eligible` as `is_eligible`.
pub record AutoReadEligibility : Type 0 where
  pub is_eligible : Bool
  pub memory_ids : List String
  pub total_chars : ℕ
  pub reason : Reason

-- `memory_ids`
abbrev pub ids_of : List IndexedMemory → List String
ids_of [] = []
ids_of (e ∷ es) = e.memory_id ∷ ids_of es

-- `sum(len(entry.markdown) for entry in self._entries)`
unfoldable pub chars_of : List IndexedMemory → ℕ
chars_of [] = 0
chars_of (e ∷ es) = len e.markdown + chars_of es

-- Some entry is longer than a memory may be.
unfoldable pub any_too_long : List IndexedMemory → Bool
any_too_long [] = false
any_too_long (e ∷ es) = ltb max_memory_read_chars (len e.markdown) || any_too_long es

abbrev pub refused : ℕ → Reason → AutoReadEligibility
refused total reason = record {
  is_eligible = false;
  memory_ids = [];
  total_chars = total;
  reason = reason;
}

abbrev pub accepted : ℕ → List String → AutoReadEligibility
accepted total memory_ids = record {
  is_eligible = true;
  memory_ids = memory_ids;
  total_chars = total;
  reason = eligible;
}

-- The answer within budgets that are valid.
unfoldable pub eligibility_within : List IndexedMemory → ℕ → ℕ → AutoReadEligibility
eligibility_within entries document_budget character_budget =
    if ltb document_budget (length (ids_of entries))
    then refused (chars_of entries) too_many_documents
    else if any_too_long entries || ltb character_budget (chars_of entries)
    then refused (chars_of entries) content_too_large
    else accepted (chars_of entries) (ids_of entries)

-- `MemoryRetrievalIndex.auto_read_eligibility`
unfoldable pub auto_read_eligibility : List IndexedMemory → Json → Json → Result AutoReadEligibility
auto_read_eligibility entries max_documents max_total_chars = do
  document_budget ← validated_budget max_read_documents max_documents
  character_budget ← validated_budget max_total_read_chars max_total_chars
  ok (eligibility_within entries document_budget character_budget)

-- `auto_read_ids`
unfoldable pub auto_read_ids : List IndexedMemory → Json → Json → Result (List String)
auto_read_ids entries max_documents max_total_chars = do
  answer ← auto_read_eligibility entries max_documents max_total_chars
  ok answer.memory_ids
