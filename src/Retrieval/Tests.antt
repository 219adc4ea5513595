-- ===== src/Retrieval/Tests.antt =====
-- A snapshot of two memories that is read whole.
use failure_resolver.Prelude.{◌≡◌, refl, List, [], ◌∷◌, strip}
use failure_resolver.Json.{null, nat, str, arr, nil, cons, mem}
use failure_resolver.Retrieval.{
  ok, IndexedMemory, AutoReadEligibility, accepted, validated_budget, chars_of, any_too_long,
  eligibility_within, read, validated_memory_ids, collect_ids, by_id, read_each, result_of,
  auto_read_eligibility,
}
use failure_resolver.Retrieval.Reads.{Served, read-Served}
use failure_resolver.Retrieval.Fits.{IsSnapshot, Answers, auto_read_eligibility-read}

abbrev memories : List IndexedMemory
memories =
    record { memory_id = "box_moved"; markdown = "put it back"; metadata = null }
    ∷ record { memory_id = "door_open"; markdown = "close it"; metadata = null }
    ∷ []

memories-IsSnapshot : IsSnapshot memories
unfolding strip
memories-IsSnapshot = (refl, refl, (refl, tt), (refl, refl, tt, tt))

abbrev answer : AutoReadEligibility
answer = accepted 19 ("box_moved" ∷ "door_open" ∷ [])

all_fit : auto_read_eligibility memories (nat 4) (nat 100) ≡ ok answer
unfolding auto_read_eligibility validated_budget eligibility_within chars_of any_too_long
all_fit = refl

auto_read_eligibility-read_example : Answers memories (nat 4) (nat 100) answer
auto_read_eligibility-read_example =
    auto_read_eligibility-read memories (nat 4) (nat 100) memories-IsSnapshot all_fit

-- The second memory, asked for with white space around its identifier.
one_read :
    read memories (arr (cons (str " door_open ") nil)) (nat 1) (nat 8)
    ≡ ok (
        result_of (record { memory_id = "door_open"; markdown = "close it"; metadata = null }) ∷ [])
unfolding read validated_memory_ids collect_ids validated_budget strip mem by_id read_each
one_read = refl

read-Served_example :
    Served memories
      (cons (str " door_open ") nil)
      1
      8
      (result_of (record { memory_id = "door_open"; markdown = "close it"; metadata = null }) ∷ [])
read-Served_example = read-Served memories (cons (str " door_open ") nil) 1 8 one_read
