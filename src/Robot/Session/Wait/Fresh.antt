-- ===== src/Robot/Session/Wait/Fresh.antt =====
-- A wait against its specification: the first of the fresh frames that the predicate accepts, where
-- the predicate is asked once for each frame before it.
use failure_resolver.Prelude.{
  ℕ, ◌≡◌, ◌≤◌, ◌<◌, refl, sym, ap, ◌∙◌, true, false, not, ◌||◌, Option, none, some, List, [], ◌∷◌,
  ◌==◌, leb, if◌then◌else◌, ◌⊎◌, inl, inr, Bool-cases, arith,
}
use failure_resolver.Robot.Pointer.{FlowPointer}
use failure_resolver.Robot.Frames.{FlowFrame}
use failure_resolver.Robot.Session.{Session}
use failure_resolver.Robot.Session.Wait.{Predicate, Cursor, is_stale, scan, wait_for_flow}
use failure_resolver.Robot.Session.Wait.Scan.{
  scan-skip, scan-hit, scan-pass, passed_by, Watches, outcome_of, wait_from-scan,
}

-- The revisions rise along the list, from above `n`.
abbrev pub Rising : ℕ → List FlowFrame → Type 0
Rising n [] = Unit
Rising n (f ∷ fs) = (n < f.revision) × Rising f.revision fs

-- The pointers of the frames of a connection behind a revision.
unfoldable pub fresh_frames : ℕ → ℕ → List FlowFrame → List (Option FlowPointer)
fresh_frames generation after [] = []
fresh_frames generation after (f ∷ fs) =
    let rest = fresh_frames generation after fs in
    if leb f.revision after || not (f.generation == generation) then rest else f.pointer ∷ rest

module _ {S : Type 0} (predicate : Predicate S) where
  -- The first frame that is accepted.
  unfoldable pub select : S → List (Option FlowPointer) → Option (Option FlowPointer)
  select state [] = none
  select state (p ∷ ps) =
      let answer = predicate state p in
      let later = select answer.1 ps in if answer.0 then some p else later

  select-hit :
      (state : S) (p : Option FlowPointer) (ps : List (Option FlowPointer))
      → (predicate state p).0 ≡ true
      → select state (p ∷ ps) ≡ some p
  unfolding select
  select-hit state p ps e = rw (e, select) refl

  select-pass :
      (state : S) (p : Option FlowPointer) (ps : List (Option FlowPointer))
      → (predicate state p).0 ≡ false
      → select state (p ∷ ps) ≡ select (predicate state p).1 ps
  unfolding select
  select-pass state p ps e = rw (e, select) refl

  module _ (g after : ℕ) where
    -- The cursor has not moved yet, or it stands between the start and what is to come.
    abbrev Standing : ℕ → ℕ → Type 0
    Standing seen n = (seen ≡ after) ⊎ ((after ≤ seen) × (seen ≤ n))

    Standing-Stale :
        (seen n : ℕ) (f : FlowFrame)
        → Standing seen n
        → n < f.revision
        → is_stale predicate g f seen ≡ (leb f.revision after || not (f.generation == g))
    Standing-Stale seen n f (inl e) above = rw e refl
    Standing-Stale seen n f (inr (low, high)) above = ground arith

    Standing-skip :
        (seen n : ℕ) (f : FlowFrame) → Standing seen n → n < f.revision → Standing seen f.revision
    Standing-skip seen n f (inl e) above = inl e
    Standing-skip seen n f (inr (low, high)) above = inr (low, ground arith)

    Standing-pass :
        (f : FlowFrame)
        → (leb f.revision after || not (f.generation == g)) ≡ false
        → Standing f.revision f.revision
    Standing-pass f e = inr (ground arith, ground arith)

    fresh_frames-old :
        (f : FlowFrame) (fs : List FlowFrame)
        → (leb f.revision after || not (f.generation == g)) ≡ true
        → fresh_frames g after (f ∷ fs) ≡ fresh_frames g after fs
    unfolding fresh_frames
    fresh_frames-old f fs e = rw (e, fresh_frames) refl

    fresh_frames-young :
        (f : FlowFrame) (fs : List FlowFrame)
        → (leb f.revision after || not (f.generation == g)) ≡ false
        → fresh_frames g after (f ∷ fs) ≡ f.pointer ∷ fresh_frames g after fs
    unfolding fresh_frames
    fresh_frames-young f fs e = rw (e, fresh_frames) refl

    scan-select :
        (log : List FlowFrame) (n : ℕ) (c : Cursor S)
        → c.selected ≡ none
        → Rising n log
        → Standing c.seen n
        → (scan predicate g log c).selected ≡ select c.state (fresh_frames g after log)
    unfolding scan select fresh_frames passed_by
    scan-select [] n c e rising at = e
    scan-select (f ∷ fs) n c e rising at =
        elim (Bool-cases (leb f.revision after || not (f.generation == g))) [
          | inl old ↦
              ap (λ z. z.selected) (scan-skip predicate g f fs c (stale ∙ old))
              ∙ scan-select fs f.revision c e rising.1 (Standing-skip c.seen n f at rising.0)
              ∙ ap (select c.state) (sym (fresh_frames-old f fs old))
          | inr young ↦
              elim (Bool-cases (predicate c.state f.pointer).0) [
                | inl hit ↦
                    ap (λ z. z.selected) (scan-hit predicate g f fs c (stale ∙ young) hit)
                    ∙ sym (select-hit c.state f.pointer (fresh_frames g after fs) hit)
                | inr miss ↦
                    ap (λ z. z.selected) (scan-pass predicate g f fs c (stale ∙ young) miss)
                    ∙ scan-select fs f.revision (passed_by predicate g f c) refl rising.1
                        (Standing-pass f young)
                    ∙ sym (select-pass c.state f.pointer (fresh_frames g after fs) miss)
              ]
              ∙ ap (select c.state) (sym (fresh_frames-young f fs young))
        ]
      where
        stale : is_stale predicate g f c.seen ≡ (leb f.revision after || not (f.generation == g))
        stale = Standing-Stale c.seen n f at rising.0

-- A wait on one connection, woken before an unseen frame is dropped, returns the first fresh frame
-- that its predicate accepts, and times out if there is none: the predicate is asked once for each
-- fresh frame, in the order of the revisions, however the frames fall on the wake-ups.
pub wait_for_flow-select :
    {S : Type 0} (predicate : Predicate S) (generation after : ℕ) (start : S) {log : List FlowFrame}
    (n : ℕ) {states : List Session}
    → Watches generation [] states log
    → Rising n log
    → wait_for_flow predicate generation after start states
      ≡ outcome_of (select predicate start (fresh_frames generation after log))
unfolding wait_for_flow
wait_for_flow-select predicate generation after start {log} n w rising =
    let c : Cursor _ = record { seen = after; state = start; selected = none } in
    wait_from-scan predicate generation c w refl tt
    ∙ ap (outcome_of) (scan-select predicate generation after log n c refl rising (inl refl))
