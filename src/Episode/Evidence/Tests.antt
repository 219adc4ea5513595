-- ===== src/Episode/Evidence/Tests.antt =====
-- Witnesses at a small row with a secret in it.
use failure_resolver.Prelude.{
  ◌≡◌, refl, none, strip, dash_to_underscore, ends_with, starts_with, contains_text,
}
use failure_resolver.Json.{null, str, obj, Fields, end, field, nat}
use failure_resolver.Json.Equal.{field_count}
use failure_resolver.Json.Length.{dump_length}
use failure_resolver.Errors.{ok, ◌>>=◌}
use failure_resolver.Runtime.{Runtime}
use failure_resolver.Episode.{is_sensitive_key, is_sensitive_name, sanitize_value}
use failure_resolver.Episode.Clean.{Clean, sanitize_value-Clean_fixed}
use failure_resolver.Episode.Evidence.{
  build_episode_evidence, sanitize_failure, sanitize_episode_record, validate_episode_evidence,
  Holds, IsEvidence, validate_episode_evidence-fixed, build_episode_evidence-Holds,
}

-- The case maps are those of texts without capitals, and no text is a number.
abbrev runtime : Runtime
runtime = record {
  upper = λ s. s;
  lower = λ s. s;
  casefold = λ s. s;
  uuid_text = λ s. s;
  float_of_int = λ n. none;
  float_size = λ f. 3;
  parse_int = λ s. none;
  parse_float = λ s. none;
  loads = λ s. none;
}

abbrev row : Fields
row = field "robot" (str "R1") (field "api-key" (str "x") (field "index" (nat 4) end))

abbrev shown_row : Fields
shown_row = field "robot" (str "R1") (field "index" (nat 4) end)

abbrev evidence : Fields
evidence = field "failure_event" null (field "resolution_event" (obj shown_row) end)

sanitizes : sanitize_value runtime (obj row) 0 ≡ ok (obj shown_row)
unfolding sanitize_value field_count is_sensitive_key is_sensitive_name dash_to_underscore strip
    ends_with starts_with contains_text ◌>>=◌
sanitizes = refl

validates : validate_episode_evidence runtime (obj row) ≡ ok shown_row
unfolding validate_episode_evidence dump_length sanitize_value field_count is_sensitive_key
    is_sensitive_name dash_to_underscore strip ends_with starts_with contains_text ◌>>=◌
validates = refl

builds : build_episode_evidence runtime none row ≡ ok evidence
unfolding build_episode_evidence validate_episode_evidence sanitize_failure sanitize_episode_record
    dump_length sanitize_value field_count is_sensitive_key is_sensitive_name dash_to_underscore
    strip ends_with starts_with contains_text ◌>>=◌
builds = refl

sanitize_value-Clean_fixed_example :
    Clean runtime 0 (obj shown_row)
    × (sanitize_value runtime (obj shown_row) 0 ≡ ok (obj shown_row))
sanitize_value-Clean_fixed_example =
    sanitize_value-Clean_fixed runtime (obj row) (obj shown_row) 0 sanitizes

validate_episode_evidence-fixed_example :
    IsEvidence runtime (obj row) shown_row
    × (validate_episode_evidence runtime (obj shown_row) ≡ ok shown_row)
validate_episode_evidence-fixed_example =
    validate_episode_evidence-fixed runtime (obj row) validates

build_episode_evidence-Holds_example : Holds runtime none row evidence
build_episode_evidence-Holds_example =
    build_episode_evidence-Holds runtime none row
      (record { failure_event = refl; resolution_event = refl }) builds
