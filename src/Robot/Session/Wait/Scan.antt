-- ===== src/Robot/Session/Wait/Scan.antt =====
-- A wait sees every frame that is published while it waits exactly once and in order, however the
-- history's old frames are dropped meanwhile.
use mathlib.Core.Path.{subst}
use failure_resolver.Prelude.{
  ℕ, zero, suc, ◌≡◌, ◌≤◌, refl, sym, ap, ◌∙◌, Bool, true, false, not, ◌||◌, Option, none, some,
  List, [], ◌∷◌, ◌++◌, ◌==◌, length, drop, All, All-append, All-drop, Bool-cases, Option-cases, inl,
  inr, arith,
}
use failure_resolver.Errors.{Result, ok, err, outcome_unknown}
use failure_resolver.Robot.Pointer.{FlowPointer}
use failure_resolver.Robot.Frames.{FlowFrame}
use failure_resolver.Robot.Session.{Session}
use failure_resolver.Robot.Session.Wait.{Predicate, Cursor, is_stale, scan, wait_from}

-- The states at which a wait looks: each holds the history so far, with new frames behind it and
-- none dropped that it has not looked at, on one connection. `seen` are the frames before, the
-- last list those that come.
pub data Watches (g : ℕ) : List FlowFrame → List Session → List FlowFrame → Type 0 where
  over : {seen : List FlowFrame} → Watches g seen [] []
  woken :
      {seen : List FlowFrame} (new rest : List FlowFrame) {s : Session} {states : List Session}
      (k : ℕ)
      → k ≤ length seen
      → s.flow_history ≡ drop k (seen ++ new)
      → s.connected ≡ true
      → s.generation ≡ g
      → Watches g (seen ++ new) states rest
      → Watches g seen (s ∷ states) (new ++ rest)

-- What a wait returns for a cursor: the selected frame, or the timeout.
abbrev pub outcome_of : Option (Option FlowPointer) → Result (Option FlowPointer)
outcome_of none = err outcome_unknown
outcome_of (some p) = ok p

drop-append :
    {A : Type 0} (n : ℕ) (xs ys : List A) → n ≤ length xs → drop n (xs ++ ys) ≡ drop n xs ++ ys
drop-append zero xs ys h = refl
drop-append (suc n) [] ys h = absurd (ground arith)
drop-append (suc n) (x ∷ xs) ys h = drop-append n xs ys (ground arith)

module _ {S : Type 0} (predicate : Predicate S) (g : ℕ) where
  -- The cursor is behind none of the frames.
  abbrev Stale : ℕ → FlowFrame → Type 0
  Stale seen f = is_stale predicate g f seen ≡ true

  scan-Stale :
      (xs ys : List FlowFrame) (c : Cursor S)
      → All (Stale c.seen) xs
      → scan predicate g (xs ++ ys) c ≡ scan predicate g ys c
  unfolding scan
  scan-Stale [] ys c h = refl
  scan-Stale (x ∷ xs) ys c h = rw (h.0, scan) (scan-Stale xs ys c h.1)

  some-not_none : {A : Type 0} {a : A} → some a ≡ none → ⊥
  some-not_none h = cc

  young_le :
      (a : ℕ) (f : FlowFrame) {b : ℕ} → is_stale predicate g f a ≡ false → f.revision ≤ b → a ≤ b
  young_le a f e le = ground arith

  seen-Stale : (f : FlowFrame) {b : ℕ} → f.revision ≤ b → Stale b f
  seen-Stale f le = ground arith

  Stale-later : (a b : ℕ) (f : FlowFrame) → a ≤ b → Stale a f → Stale b f
  Stale-later a b f le h = ground arith

  All-Stale_later : (a b : ℕ) (xs : List FlowFrame) → a ≤ b → All (Stale a) xs → All (Stale b) xs
  All-Stale_later a b [] le h = tt
  All-Stale_later a b (x ∷ xs) le h = (Stale-later a b x le h.0, All-Stale_later a b xs le h.1)

  -- The three ways in which a scan takes a frame.
  unfoldable pub passed_by : FlowFrame → Cursor S → Cursor S
  passed_by f c = record {
    seen = f.revision;
    state = (predicate c.state f.pointer).1;
    selected = none;
  }

  pub scan-skip :
      (f : FlowFrame) (fs : List FlowFrame) (c : Cursor S)
      → is_stale predicate g f c.seen ≡ true
      → scan predicate g (f ∷ fs) c ≡ scan predicate g fs c
  unfolding scan
  scan-skip f fs c e = rw (e, scan) refl

  pub scan-hit :
      (f : FlowFrame) (fs : List FlowFrame) (c : Cursor S)
      → is_stale predicate g f c.seen ≡ false
      → (predicate c.state f.pointer).0 ≡ true
      → scan predicate g (f ∷ fs) c ≡ record {
        seen = f.revision;
        state = (predicate c.state f.pointer).1;
        selected = some f.pointer;
      }
  unfolding scan
  scan-hit f fs c e d = rw (e, d, scan) refl

  pub scan-pass :
      (f : FlowFrame) (fs : List FlowFrame) (c : Cursor S)
      → is_stale predicate g f c.seen ≡ false
      → (predicate c.state f.pointer).0 ≡ false
      → scan predicate g (f ∷ fs) c ≡ scan predicate g fs (passed_by f c)
  unfolding scan passed_by
  scan-pass f fs c e d = rw (e, d, scan) refl

  -- What a scan leaves that selects nothing.
  abbrev Passed : List FlowFrame → ℕ → Cursor S → Type 0
  Passed xs before after = (before ≤ after.seen) × All (Stale after.seen) xs

  scan-Passed :
      (xs : List FlowFrame) (c : Cursor S)
      → (scan predicate g xs c).selected ≡ none
      → Passed xs c.seen (scan predicate g xs c)
  unfolding scan passed_by
  scan-Passed [] c h = (ground arith, tt)
  scan-Passed (f ∷ fs) c h = elim (Bool-cases (is_stale predicate g f c.seen)) [
    | inl old ↦
        let (further, behind) = scan-Passed fs c (rw (scan-skip f fs c old) at h) in
        subst (Passed (f ∷ fs) c.seen) (sym (scan-skip f fs c old))
          (further, (Stale-later _ _ f further old, behind))
    | inr young ↦ elim (Bool-cases (predicate c.state f.pointer).0) [
      | inl hit ↦ absurd (some-not_none (rw (scan-hit f fs c young hit) at h))
      | inr miss ↦
          let (further, behind) =
            scan-Passed fs (passed_by f c) (rw (scan-pass f fs c young miss) at h) in
          subst (Passed (f ∷ fs) c.seen) (sym (scan-pass f fs c young miss))
            (young_le c.seen f young further, (seen-Stale f further, behind))
    ]
  ]

  -- A scan of two parts goes on behind the first, if that selects nothing.
  scan-append_none :
      (xs ys : List FlowFrame) (c : Cursor S)
      → (scan predicate g xs c).selected ≡ none
      → scan predicate g (xs ++ ys) c ≡ scan predicate g ys (scan predicate g xs c)
  unfolding scan
  scan-append_none [] ys c h = refl
  scan-append_none (f ∷ fs) ys c h = elim (Bool-cases (is_stale predicate g f c.seen)) [
    | inl old ↦
        rw (scan-skip f fs c old, scan-skip f (fs ++ ys) c old)
          (scan-append_none fs ys c (rw (scan-skip f fs c old) at h))
    | inr young ↦ elim (Bool-cases (predicate c.state f.pointer).0) [
      | inl hit ↦ absurd (some-not_none (rw (scan-hit f fs c young hit) at h))
      | inr miss ↦
          rw (scan-pass f fs c young miss, scan-pass f (fs ++ ys) c young miss)
            (scan-append_none fs ys (passed_by f c) (rw (scan-pass f fs c young miss) at h))
    ]
  ]

  -- And it ends in the first, if that selects a frame.
  scan-append_some :
      (xs ys : List FlowFrame) (c : Cursor S) (p : Option FlowPointer)
      → c.selected ≡ none
      → (scan predicate g xs c).selected ≡ some p
      → scan predicate g (xs ++ ys) c ≡ scan predicate g xs c
  unfolding scan passed_by
  scan-append_some [] ys c p n h = absurd (some-not_none (sym h ∙ n))
  scan-append_some (f ∷ fs) ys c p n h = elim (Bool-cases (is_stale predicate g f c.seen)) [
    | inl old ↦
        rw (scan-skip f fs c old, scan-skip f (fs ++ ys) c old)
          (scan-append_some fs ys c p n (rw (scan-skip f fs c old) at h))
    | inr young ↦ elim (Bool-cases (predicate c.state f.pointer).0) [
      | inl hit ↦ rw (scan-hit f fs c young hit, scan-hit f (fs ++ ys) c young hit) refl
      | inr miss ↦
          rw (scan-pass f fs c young miss, scan-pass f (fs ++ ys) c young miss)
            (scan-append_some fs ys (passed_by f c) p refl (rw (scan-pass f fs c young miss) at h))
    ]
  ]

  wait_on :
      (connected : Bool) (n : ℕ)
      → connected ≡ true
      → n ≡ g
      → (not connected || not (n == g)) ≡ false
  wait_on connected n c e = ground arith

  wait-found :
      (s : Session) (states : List Session) (c : Cursor S) (p : Option FlowPointer)
      → s.connected ≡ true
      → s.generation ≡ g
      → (scan predicate g s.flow_history c).selected ≡ some p
      → wait_from predicate g (s ∷ states) c ≡ ok p
  unfolding wait_from
  wait-found s states c p on same e = rw (wait_on _ _ on same, e, wait_from) refl

  wait-again :
      (s : Session) (states : List Session) (c : Cursor S)
      → s.connected ≡ true
      → s.generation ≡ g
      → (scan predicate g s.flow_history c).selected ≡ none
      → wait_from predicate g (s ∷ states) c
        ≡ wait_from predicate g states (scan predicate g s.flow_history c)
  unfolding wait_from scan
  wait-again s states c on same e = rw (wait_on _ _ on same, e, wait_from) refl

  -- The frames that a wait has looked at do not matter to it any more.
  scan_window :
      (seen new history : List FlowFrame) (k : ℕ) (c : Cursor S)
      → k ≤ length seen
      → history ≡ drop k (seen ++ new)
      → All (Stale c.seen) seen
      → scan predicate g history c ≡ scan predicate g new c
  scan_window seen new history k c le h old =
      ap (λ l. scan predicate g l c) (h ∙ drop-append k seen new le)
      ∙ scan-Stale (drop k seen) new c (All-drop (Stale c.seen) k seen old)

  pub wait_from-scan :
      {seen whole : List FlowFrame} {states : List Session} (c : Cursor S)
      → Watches g seen states whole
      → c.selected ≡ none
      → All (Stale c.seen) seen
      → wait_from predicate g states c ≡ outcome_of (scan predicate g whole c).selected
  unfolding wait_from scan
  wait_from-scan c over n old = rw n refl
  wait_from-scan c (woken {seen = seen} new rest {s = s} {states = states} k le h on same w) n old =
      elim (Option-cases (scan predicate g new c).selected) [
        | inl nothing ↦
            wait-again s states c on same (ap (λ z. z.selected) window ∙ nothing)
            ∙ ap (wait_from predicate g states) window
            ∙ wait_from-scan (scan predicate g new c) w nothing (
                All-append (Stale (scan predicate g new c).seen) seen new
                  (All-Stale_later c.seen _ seen (scan-Passed new c nothing).0 old)
                  (scan-Passed new c nothing).1)
            ∙ ap (λ z. outcome_of z.selected) (sym (scan-append_none new rest c nothing))
        | inr (p, found) ↦
            wait-found s states c p on same (ap (λ z. z.selected) window ∙ found)
            ∙ ap outcome_of
                (sym (ap (λ z. z.selected) (scan-append_some new rest c p n found) ∙ found))
      ]
    where
      window : scan predicate g s.flow_history c ≡ scan predicate g new c
      window = scan_window seen new s.flow_history k c le h old
