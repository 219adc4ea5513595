-- ===== src/Episode/Evidence.antt =====
-- The evidence of an episode: `sanitize_episode_record`, `validate_episode_evidence` and
-- `build_episode_evidence` of episode_evidence.py.
mod Tests
use mathlib.Core.Path.{subst}
use failure_resolver.Prelude.{
  ℕ, ◌≡◌, ◌≤◌, refl, sym, ap, ◌∙◌, Bool, true, false, Option, none, some, ltb, arith, strip,
  dash_to_underscore, ends_with, starts_with, contains_text,
}
use failure_resolver.Json.{Json, null, bool, int, float, str, arr, obj, Fields, end, field, mem}
use failure_resolver.Json.Length.{dump_length}
use failure_resolver.Errors.{
  Result, ok, err, value_error, ◌>>=◌, ◌>>◌, raise_if, Ensures, returns, raises, bind-Ensures,
  raise_if-Ensures, Ensures-ok, >>=-ok, raise_if-ok,
}
use failure_resolver.Runtime.{Runtime}
use failure_resolver.Episode.{is_sensitive_key, is_sensitive_name, sanitize_value}
use failure_resolver.Episode.Clean.{Clean, CleanFields, sanitize_value-Clean_fixed, pair-same}

-- `MAX_EPISODE_EVIDENCE_CHARS`
abbrev pub max_evidence_chars : ℕ
max_evidence_chars = 160_000

abbrev pub object_of : Json → Result Fields
object_of (obj o) = ok o
object_of _ = err value_error

obj-injective : {o o' : Fields} → obj o ≡ obj o' → o ≡ o'
obj-injective e = cc

Ensures-map :
    {A : Type 0} {P Q : A → Type 0} {r : Result A}
    → ((a : A) → P a → Q a)
    → Ensures P r
    → Ensures Q r
Ensures-map f (returns {a = a} p) = returns (f a p)
Ensures-map f (raises e) = raises e

module _ (py : Runtime) where
  unfoldable pub sanitize_episode_record : Fields → Result Fields
  sanitize_episode_record row = do sanitized ← sanitize_value py (obj row) 0; object_of sanitized

  unfoldable pub sanitize_failure : Option Fields → Result Json
  sanitize_failure none = ok null
  sanitize_failure (some row) = do sanitized ← sanitize_episode_record row; ok (obj sanitized)

  unfoldable pub validate_episode_evidence : Json → Result Fields
  validate_episode_evidence value = do
    sanitized ← sanitize_value py value 0
    evidence ← object_of sanitized
    raise_if (ltb max_evidence_chars (dump_length py (obj evidence))) value_error
    ok evidence

  unfoldable pub build_episode_evidence : Option Fields → Fields → Result Fields
  build_episode_evidence failure_event resolution_event = do
    failure ← sanitize_failure failure_event
    resolution ← sanitize_episode_record resolution_event
    validate_episode_evidence
        (obj (field "failure_event" failure (field "resolution_event" (obj resolution) end)))

  -- What `validate_episode_evidence` returns for a value.
  pub record IsEvidence (value : Json) (e : Fields) : Type 0 where
    pub sanitized : sanitize_value py value 0 ≡ ok (obj e)
    pub clean : Clean py 0 (obj e)
    pub short : dump_length py (obj e) ≤ max_evidence_chars

  object_of-obj : (v : Json) {o : Fields} → object_of v ≡ ok o → v ≡ obj o
  object_of-obj (obj o) e = cc
  object_of-obj null e = cc
  object_of-obj (bool b) e = cc
  object_of-obj (int n) e = cc
  object_of-obj (float f) e = cc
  object_of-obj (str s) e = cc
  object_of-obj (arr xs) e = cc

  validate-IsEvidence :
      (value : Json) → Ensures (IsEvidence value) (validate_episode_evidence value)
  unfolding validate_episode_evidence
  validate-IsEvidence value = bind-Ensures _ λ v e. bind-Ensures _ λ o e'. raise_if-Ensures _ _ λ h.
      let whole = e ∙ ap ok (object_of-obj v e') in
      returns (record {
        sanitized = whole;
        clean = (sanitize_value-Clean_fixed py value (obj o) 0 whole).0;
        short = ground arith;
      })

  -- Evidence that is accepted has no sensitive key at any depth, is within all bounds, is written in
  -- at most 160000 characters, and is accepted again as it is.
  pub validate_episode_evidence-fixed :
      (value : Json) {e : Fields}
      → validate_episode_evidence value ≡ ok e
      → IsEvidence value e × (validate_episode_evidence (obj e) ≡ ok e)
  unfolding validate_episode_evidence
  validate_episode_evidence-fixed value {e} h =
      let v = Ensures-ok (validate-IsEvidence value) h in
      (
        v,
        >>=-ok _ (obj e) (sanitize_value-Clean_fixed py value (obj e) 0 v.sanitized).1 (
            >>=-ok _ e refl (
              raise_if-ok (ltb max_evidence_chars (dump_length py (obj e))) value_error
                (ground (arith, v.short)) refl)),
      )

  -- `str.lower` keeps the two keys of the evidence.
  pub record KeepsKeys : Type 0 where
    pub failure_event : py.lower "failure_event" ≡ "failure_event"
    pub resolution_event : py.lower "resolution_event" ≡ "resolution_event"

  plain_failure : KeepsKeys → is_sensitive_key py "failure_event" ≡ false
  unfolding is_sensitive_key strip is_sensitive_name dash_to_underscore ends_with starts_with
      contains_text mem
  plain_failure k = rw (k.failure_event) refl

  plain_resolution : KeepsKeys → is_sensitive_key py "resolution_event" ≡ false
  unfolding is_sensitive_key strip is_sensitive_name dash_to_underscore ends_with starts_with
      contains_text mem
  plain_resolution k = rw (k.resolution_event) refl

  record-Clean : (row : Fields) → Ensures (λ o. Clean py 0 (obj o)) (sanitize_episode_record row)
  unfolding sanitize_episode_record
  record-Clean row =
      bind-Ensures _ λ v e. of_object v (sanitize_value-Clean_fixed py (obj row) v 0 e).0
    where
      of_object : (v : Json) → Clean py 0 v → Ensures (λ o. Clean py 0 (obj o)) (object_of v)
      of_object (obj o) c = returns c
      of_object null c = raises value_error
      of_object (bool b) c = raises value_error
      of_object (int n) c = raises value_error
      of_object (float f) c = raises value_error
      of_object (str s) c = raises value_error
      of_object (arr xs) c = raises value_error

  failure-Clean : (row : Option Fields) → Ensures (Clean py 0) (sanitize_failure row)
  unfolding sanitize_failure Clean
  failure-Clean none = returns (omega arith)
  failure-Clean (some row) = bind-Ensures _ λ o e. returns (Ensures-ok (record-Clean row) e)

  -- The evidence holds the two sanitized rows as they are.
  pub record Holds (failure_event : Option Fields) (resolution_event e : Fields) : Type 0 where
    pub failure : Json
    pub resolution : Fields
    pub failure_eq : sanitize_failure failure_event ≡ ok failure
    pub resolution_eq : sanitize_episode_record resolution_event ≡ ok resolution
    pub whole : e ≡ field "failure_event" failure (field "resolution_event" (obj resolution) end)

  whole-same :
      (f : Json) (o : Fields) {e : Fields}
      → KeepsKeys
      → Clean py 0 f
      → Clean py 0 (obj o)
      → IsEvidence (obj (field "failure_event" f (field "resolution_event" (obj o) end))) e
      → e ≡ field "failure_event" f (field "resolution_event" (obj o) end)
  whole-same f o keys c c' v = obj-injective (
      Ensures-ok
        (pair-same py "failure_event" "resolution_event" f (obj o) (plain_failure keys)
          (plain_resolution keys) c c')
        v.sanitized)

  build-Holds :
      (failure_event : Option Fields) (resolution_event : Fields)
      → KeepsKeys
      → Ensures
          (Holds failure_event resolution_event)
          (build_episode_evidence failure_event resolution_event)
  unfolding build_episode_evidence
  build-Holds failure_event resolution_event keys = bind-Ensures _ λ f ef. bind-Ensures _ λ o eo.
      Ensures-map
        (λ e v. record {
          failure = f;
          resolution = o;
          failure_eq = ef;
          resolution_eq = eo;
          whole =
              whole-same f o keys (Ensures-ok (failure-Clean failure_event) ef)
                (Ensures-ok (record-Clean resolution_event) eo) v;
        })
        (validate-IsEvidence _)

  -- Evidence that is built holds exactly the two sanitized rows, the failure's row being null where
  -- there is none: the second sanitizing of the whole drops and changes nothing. `str.lower` keeps the
  -- two keys of the evidence.
  pub build_episode_evidence-Holds :
      (failure_event : Option Fields) (resolution_event : Fields) {e : Fields}
      → KeepsKeys
      → build_episode_evidence failure_event resolution_event ≡ ok e
      → Holds failure_event resolution_event e
  build_episode_evidence-Holds failure_event resolution_event keys h =
      Ensures-ok (build-Holds failure_event resolution_event keys) h
