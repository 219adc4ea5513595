-- ===== src/Robot/Session/Window.antt =====
-- The frames that a session remembers, over what changes them.
use failure_resolver.Prelude.{
  ℕ, ◌≤◌, ◌<◌, List, [], ◌∷◌, ◌++◌, leb, length, length-append, drop, length-drop, All, Bool-cases,
  inl, inr, arith,
}
use failure_resolver.Robot.Frames.{FlowFrame}
use failure_resolver.Robot.Session.{flow_history_limit, append_frame}
use failure_resolver.Robot.Session.Wait.Fresh.{Rising}

-- A frame that the session has counted.
abbrev pub Counted : ℕ → ℕ → FlowFrame → Type 0
Counted generation revision f = (f.generation ≤ generation) × (f.revision ≤ revision)

-- The history with one more frame, behind all that it holds.
pub Rising-append :
    (n : ℕ) (fs : List FlowFrame) (f : FlowFrame) (m g : ℕ)
    → Rising n fs
    → All (Counted g m) fs
    → n ≤ m
    → m < f.revision
    → Rising n (fs ++ f ∷ [])
Rising-append n [] f m g r c le lt = (ground arith, tt)
Rising-append n (x ∷ xs) f m g r c le lt = (r.0, Rising-append x.revision xs f m g r.1 c.1 c.0.1 lt)

pub Rising-lower : (n m : ℕ) (fs : List FlowFrame) → n ≤ m → Rising m fs → Rising n fs
Rising-lower n m [] le r = tt
Rising-lower n m (x ∷ xs) le r = (ground arith, r.1)

pub Rising-drop : (n : ℕ) (fs : List FlowFrame) → Rising n fs → Rising n (drop 1 fs)
Rising-drop n [] r = tt
Rising-drop n (x ∷ xs) r = Rising-lower n x.revision xs (ground arith) r.1

pub Counted-later :
    (g g' m m' : ℕ) (fs : List FlowFrame)
    → g ≤ g'
    → m ≤ m'
    → All (Counted g m) fs
    → All (Counted g' m') fs
Counted-later g g' m m' [] hg hm c = tt
Counted-later g g' m m' (x ∷ xs) hg hm c =
    ((ground arith, ground arith), Counted-later g g' m m' xs hg hm c.1)

-- A property of the grown history that the drop of the oldest frame keeps holds of it in both cases.
pub append_frame-cases :
    (P : List FlowFrame → Type 0) (f : FlowFrame) (fs : List FlowFrame)
    → P (fs ++ f ∷ [])
    → P (drop 1 (fs ++ f ∷ []))
    → P (append_frame f fs)
unfolding append_frame
append_frame-cases P f fs all rest =
    elim (Bool-cases (leb (length (fs ++ f ∷ [])) flow_history_limit)) [
      | inl room ↦ rw (room, append_frame) all
      | inr full ↦ rw (full, append_frame) rest
    ]

pub append_frame-bounded :
    (f : FlowFrame) (fs : List FlowFrame)
    → length fs ≤ flow_history_limit
    → length (append_frame f fs) ≤ flow_history_limit
unfolding append_frame
append_frame-bounded f fs h =
    ground (arith, length-append fs (f ∷ []), length-drop 1 (fs ++ f ∷ []))
