-- ===== src/Retrieval/Reads.antt =====
-- What `read` returns.
use mathlib.Core.Path.{subst}
use failure_resolver.Prelude.{
  ℕ, suc, ◌+◌, ◌≤◌, ◌≡◌, refl, sym, ap, String, Bool, true, false, ◌||◌, Option, none, some, List,
  [], ◌∷◌, str_eq, eq_iff, if◌then◌else◌, is_some, strip, len, is_empty, length, Any, here, there,
  arith, Bool-cases, Option-cases, inl, inr, ◌⊎◌, not_ltb→le,
}
use failure_resolver.Json.{null, str, nat, arr, Items, nil, cons, mem}
use failure_resolver.Retrieval.{
  Failure, Result, ok, err, ◌>>=◌, ◌>>◌, raise_if, IndexedMemory, MemoryReadResult,
  max_memory_read_chars, max_read_documents, max_total_read_chars, validated_budget, collect_ids,
  validated_memory_ids, by_id, result_of, read_each, read,
}

-- The results are entries of the snapshot, one for each identifier, in order, each within its limit.
abbrev Found : List IndexedMemory → List String → List MemoryReadResult → Type 0
Found entries [] [] = Unit
Found entries (k ∷ ks) (r ∷ rs) =
    (r.memory_id ≡ k)
    × Any (λ e. result_of e ≡ r) entries
    × (len r.markdown ≤ max_memory_read_chars)
    × Found entries ks rs
Found entries _ _ = ⊥

-- The same for the request as it was given, with identifiers that are not trimmed.
abbrev pub Serves : List IndexedMemory → Items → List MemoryReadResult → Type 0
Serves entries nil [] = Unit
Serves entries (cons (str s) xs) (r ∷ rs) =
    (r.memory_id ≡ strip s)
    × Any (λ e. result_of e ≡ r) entries
    × (len r.markdown ≤ max_memory_read_chars)
    × Serves entries xs rs
Serves entries _ _ = ⊥

abbrev pub read_chars : List MemoryReadResult → ℕ
read_chars [] = 0
read_chars (r ∷ rs) = len r.markdown + read_chars rs

found_in_step :
    (k : String) (x e : IndexedMemory) (later : Option IndexedMemory)
    → (if is_some later then later else if str_eq x.memory_id k then some x else none) ≡ some e
    → (later ≡ some e) ⊎ ((x ≡ e) × (e.memory_id ≡ k))
found_in_step k x e none h = inr (ground (arith, eq_iff x.memory_id k))
found_in_step k x e (some d) h = inl h

by_id_found :
    (k : String) (es : List IndexedMemory) {e : IndexedMemory}
    → by_id k es ≡ some e
    → (e.memory_id ≡ k) × Any (λ x. result_of x ≡ result_of e) es
unfolding by_id
by_id_found k [] h = cc
by_id_found k (x ∷ es) {e} h = elim (found_in_step k x e (by_id k es) h) [
  | inl later ↦ let (same, m) = by_id_found k es later in (same, there m)
  | inr (is_x, same) ↦ (same, here (ap (λ (y : IndexedMemory). result_of y) is_x))
]

-- A line of a block that returns, and the check before it.
then_ok :
    {A B : Type 0} (m : Result A) {f : A → Result B} {b : B}
    → (m >>= f) ≡ ok b
    → (a : A) × (m ≡ ok a) × (f a ≡ ok b)
then_ok (ok a) h = (a, refl, h)
then_ok (err e) h = cc

check_passed :
    {B : Type 0} (t : Bool) (e : Failure) {m : Result B} {b : B}
    → (raise_if t e >> m) ≡ ok b
    → (t ≡ false) × (m ≡ ok b)
check_passed false e h = (refl, h)
check_passed true e h = cc

ok_injective : {A : Type 0} {a b : A} → ok a ≡ ok b → a ≡ b
ok_injective e = cc

WithinFrom : List IndexedMemory → ℕ → ℕ → List String → List MemoryReadResult → Type 0
WithinFrom entries budget total ks results =
    Found entries ks results × (total + read_chars results ≤ budget)

read_each-Within :
    (entries : List IndexedMemory) (budget total : ℕ) (ks : List String)
    {results : List MemoryReadResult}
    → total ≤ budget
    → read_each entries budget total ks ≡ ok results
    → WithinFrom entries budget total ks results
unfolding read_each WithinFrom
read_each-Within entries budget total [] fits h =
    let nothing : WithinFrom entries budget total [] [] = (tt, omega arith) in
    subst (WithinFrom entries budget total []) (ok_injective h) nothing
read_each-Within entries budget total (k ∷ ks) fits h = elim (Option-cases (by_id k entries)) [
  | inl missing ↦ cc (rw (missing, read_each) at h)
  | inr (e, found) ↦
      let (short, h') = check_passed _ _ (rw (found, read_each) at h) in
      let (room, h'') = check_passed _ _ h' in
      let (rest, read_rest, h''') = then_ok _ h'' in
      let (same, m) = by_id_found k entries found in
      let (later, sum) =
        read_each-Within entries budget (total + len e.markdown) ks
          (not_ltb→le budget (total + len e.markdown) room) read_rest in
      let all : WithinFrom entries budget total (k ∷ ks) (result_of e ∷ rest) = (
        (same, m, not_ltb→le max_memory_read_chars (len e.markdown) short, later),
        omega (arith, sum),
      ) in
      subst (WithinFrom entries budget total (k ∷ ks)) (ok_injective h''') all
]

Found-nil :
    (entries : List IndexedMemory) (results : List MemoryReadResult)
    → Found entries [] results
    → Serves entries nil results
Found-nil entries [] found = tt
Found-nil entries (r ∷ rs) found = absurd found

Found-cons :
    (entries : List IndexedMemory) (s : String) (xs : Items) (ks : List String)
    (results : List MemoryReadResult)
    → ((rs : List MemoryReadResult) → Found entries ks rs → Serves entries xs rs)
    → Found entries (strip s ∷ ks) results
    → Serves entries (cons (str s) xs) results
Found-cons entries s xs ks [] later found = absurd found
Found-cons entries s xs ks (r ∷ rs) later (same, m, short, found) = (same, m, short, later rs found)

collect_ids-Serves :
    (entries : List IndexedMemory) (seen : List String) (xs : Items) (ks : List String)
    (results : List MemoryReadResult)
    → collect_ids seen xs ≡ ok ks
    → Found entries ks results
    → Serves entries xs results
unfolding collect_ids
collect_ids-Serves entries seen nil ks results h found =
    Found-nil entries results (subst (λ l. Found entries l results) (sym (ok_injective h)) found)
collect_ids-Serves entries seen (cons (str s) xs) ks results h found =
    elim (Bool-cases (is_empty (strip s) || mem (strip s) seen)) [
      | inl broken ↦ cc (rw (broken, collect_ids) at h)
      | inr fine ↦
          let (ids, collected, e) = then_ok _ (rw (fine, collect_ids) at h) in
          Found-cons entries s xs ids results
            (λ rs. collect_ids-Serves entries (strip s ∷ seen) xs ids rs collected)
            (subst (λ l. Found entries l results) (sym (ok_injective e)) found)
    ]
collect_ids-Serves entries seen (cons null xs) ks results h found = cc
collect_ids-Serves entries seen (cons _ xs) ks results h found = cc

length-Found :
    (entries : List IndexedMemory) (ks : List String) (rs : List MemoryReadResult)
    → Found entries ks rs
    → length ks ≡ length rs
length-Found entries [] [] found = refl
length-Found entries [] (r ∷ rs) found = absurd found
length-Found entries (k ∷ ks) [] found = absurd found
length-Found entries (k ∷ ks) (r ∷ rs) found = ap suc (length-Found entries ks rs found.3)

validated_budget-within :
    (limit n : ℕ) {m : ℕ} → validated_budget limit (nat n) ≡ ok m → (n ≡ m) × (n ≤ limit)
unfolding validated_budget
validated_budget-within limit n h = ground arith

-- What is returned serves the request within both budgets and the hard limits.
pub record Served (entries : List IndexedMemory) (ids : Items) (documents characters : ℕ)
    (results : List MemoryReadResult) : Type 0 where
  pub serves : Serves entries ids results
  pub few : length results ≤ documents
  pub short : read_chars results ≤ characters
  pub documents_le : documents ≤ max_read_documents
  pub characters_le : characters ≤ max_total_read_chars

-- What `read` returns is, in the order of the request, one entry of the snapshot for each
-- identifier of the request, whose own identifier is that one trimmed. There are no more entries
-- than the document budget, no entry is longer than 200000 characters, together they are no longer
-- than the character budget, and the budgets are at most 4 entries and 300000 characters.
pub read-Served :
    (entries : List IndexedMemory) (ids : Items) (documents characters : ℕ)
    {results : List MemoryReadResult}
    → read entries (arr ids) (nat documents) (nat characters) ≡ ok results
    → Served entries ids documents characters results
unfolding read validated_memory_ids WithinFrom
read-Served entries ids documents characters {results} h =
    let (ks, collected, h₁) = then_ok _ h in
    let (d, ed, h₂) = then_ok _ h₁ in
    let (c, ec, h₃) = then_ok _ h₂ in
    let (few, h₄) = check_passed _ _ h₃ in
    let (known, h₅) = check_passed _ _ h₄ in
    let (same_d, d_le) = validated_budget-within max_read_documents documents ed in
    let (same_c, c_le) = validated_budget-within max_total_read_chars characters ec in
    let (found, sum) = read_each-Within entries c 0 ks (omega arith) h₅ in
    record {
      serves = collect_ids-Serves entries [] ids ks results collected found;
      few =
          omega
            (arith, not_ltb→le d (length ks) few, length-Found entries ks results found, same_d);
      short = omega (arith, sum, same_c);
      documents_le = d_le;
      characters_le = c_le;
    }
