-- ===== src/Recovery/Outcome/Started.antt =====
-- What the wait for a Flow outcome has seen when it ends.
use failure_resolver.Prelude.{
  ℕ, ◌≡◌, ap, String, Bool, true, false, Option, none, some, List, [], ◌∷◌, ◌++◌, inl, inr, arith,
  str_eq, eq_iff, Bool-cases, All, Any, here, there,
}
use failure_resolver.Runtime.{Runtime}
use failure_resolver.Robot.Pointer.{FlowPointer, is_success_status}
use failure_resolver.Recovery.Session.{SessionRecord}
use failure_resolver.Recovery.Checks.{folded_status}
use failure_resolver.Recovery.Outcome.{
  recovered, failed, same_flow, has_status, classify_flow_outcome, decisive, first_decisive,
}

paused_no_success : (x : String) → str_eq x "paused" ≡ true → is_success_status x ≡ false
unfolding is_success_status
paused_no_success x h = rw ((eq_iff x "paused").0 h)

-- The frame has a pointer of the given connection, or none.
abbrev pub FromGeneration : ℕ → Option FlowPointer → Type 0
FromGeneration g none = Unit
FromGeneration g (some p) = p.generation ≡ g

module _ (py : Runtime) (s : SessionRecord) (g : ℕ) where
  -- The Flow of the session runs.
  abbrev pub IsProgress : Option FlowPointer → Type 0
  IsProgress none = ⊥
  IsProgress (some p) = (same_flow p s ≡ true) × (has_status py p "in_progress" ≡ true)

  -- Before any progress a paused step is not decisive.
  not_failed_yet :
      (f : Option FlowPointer)
      → FromGeneration g f
      → (decisive py s g false f).0 ≡ true
      → classify_flow_outcome py f s ≡ failed
      → ⊥
  unfolding decisive classify_flow_outcome
  not_failed_yet none gen d c = cc
  not_failed_yet (some p) gen d c = ground (arith, paused_no_success (folded_status py p))

  -- Only a frame of progress starts the execution.
  started_by :
      (f : Option FlowPointer)
      → (decisive py s g false f).0 ≡ false
      → (decisive py s g false f).1 ≡ true
      → IsProgress f
  unfolding decisive
  started_by none d e = cc
  started_by (some p) d e = ground arith

  -- The frames before the one that ended the wait held one of progress.
  abbrev pub StartedBefore : List (Option FlowPointer) → Option FlowPointer → Type 0
  StartedBefore frames f =
      (seen rest : List (Option FlowPointer)) × (frames ≡ seen ++ f ∷ rest) × Any IsProgress seen

  later_frame :
      (x f : Option FlowPointer) (xs : List (Option FlowPointer))
      → StartedBefore xs f
      → StartedBefore (x ∷ xs) f
  later_frame x f xs (seen, rest, split, progress) =
      (x ∷ seen, rest, ap (λ l. x ∷ l) split, there progress)

  -- Where the frame stands among those that were seen.
  found_at :
      (frames : List (Option FlowPointer)) (started : Bool) (f : Option FlowPointer)
      → first_decisive py s g started frames ≡ some f
      → (seen rest : List (Option FlowPointer)) × (frames ≡ seen ++ f ∷ rest)
  unfolding first_decisive
  found_at [] started f e = cc
  found_at (x ∷ xs) started f e = elim (Bool-cases (decisive py s g started x).0) [
    | inl d ↦ ([], xs, ap (λ y. y ∷ xs) (ground arith))
    | inr n ↦
        let (seen, rest, split) = found_at xs (decisive py s g started x).1 f (ground arith) in
        (x ∷ seen, rest, ap (λ l. x ∷ l) split)
  ]

  -- Over frames of one connection, the fold ends in a failure only after a frame of progress.
  pub starts_before :
      (frames : List (Option FlowPointer)) (f : Option FlowPointer)
      → All (FromGeneration g) frames
      → first_decisive py s g false frames ≡ some f
      → classify_flow_outcome py f s ≡ failed
      → StartedBefore frames f
  unfolding first_decisive
  starts_before [] f gens e c = cc
  starts_before (x ∷ xs) f gens e c = elim (Bool-cases (decisive py s g false x).0) [
    | inl d ↦ let same : x ≡ f = ground arith in absurd (not_failed_yet x gens.0 d (rw same c))
    | inr n ↦ elim (Bool-cases (decisive py s g false x).1) [
      | inl went ↦
          let (seen, rest, split) = found_at xs true f (rw (n, went) at e) in
          (x ∷ seen, rest, ap (λ l. x ∷ l) split, here (started_by x n went))
      | inr still ↦ later_frame x f xs (starts_before xs f gens.1 (rw (n, still) at e) c)
    ]
  ]

  -- A frame of its own connection that is classified as `recovered` ends the wait whatever was seen
  -- before, and one classified as `failed` ends it exactly if the execution has started.
  pub decisive-classified :
      (f : Option FlowPointer) (started : Bool)
      → FromGeneration g f
      → (classify_flow_outcome py f s ≡ recovered → (decisive py s g started f).0 ≡ true)
        × (classify_flow_outcome py f s ≡ failed → (decisive py s g started f).0 ≡ started)
  unfolding decisive classify_flow_outcome
  decisive-classified none started gen = (λ c. cc, λ c. cc)
  decisive-classified (some p) started gen =
      ((λ c. ground arith), (λ c. ground (arith, paused_no_success (folded_status py p))))
