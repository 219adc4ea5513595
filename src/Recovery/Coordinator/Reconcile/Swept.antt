-- ===== src/Recovery/Coordinator/Reconcile/Swept.antt =====
-- Every expired attempt is tried, whatever the others raise.
use failure_resolver.Prelude.{
  ℕ, suc, ◌+◌, ◌≡◌, refl, sym, ap, ◌∙◌, List, [], ◌∷◌, ◌++◌, append-nil, append_assoc, length,
  arith, true, some,
}
use failure_resolver.Json.{Fields}
use failure_resolver.Errors.{
  Error, contract, non_executable, live_state_changed, database_unavailable, not_sent, rejected,
  outcome_unknown, timeout, cancelled, value_error, type_error, assertion, other, Result, ok, err,
  Done,
}
use failure_resolver.Runtime.{Runtime}
use failure_resolver.Recovery.Session.{SessionRecord, parse_recovery_session}
use failure_resolver.Recovery.Coordinator.Reconcile.{
  ExpireCall, Reconciler, Sweep, call_of, caught, after_expire, expire_parsed, go_on, expire_rows,
}

-- The calls for the rows that can be read.
unfoldable pub calls_for : Result SessionRecord → List ExpireCall
calls_for (ok s) = call_of s ∷ []
calls_for (err e) = []

unfoldable pub calls_of : Runtime → List Fields → List ExpireCall
unfolding calls_for
calls_of py [] = []
calls_of py (row ∷ rows) = calls_for (parse_recovery_session py row true) ++ calls_of py rows

module _ {W : Type 0} where
  -- `n` rows have been tried, with the calls `cs`.
  pub record Tried (n : ℕ) (cs : List ExpireCall) (s s' : Sweep W) : Type 0 where
    pub calls : s'.expires ≡ s.expires ++ cs
    pub counted :
        s'.stats.expired_attempts_reconciled + s'.stats.execution_errors
        ≡ s.stats.expired_attempts_reconciled + s.stats.execution_errors + n
    pub unknown :
        s'.stats.attempts_unknown + s.stats.expired_attempts_reconciled
        ≡ s.stats.attempts_unknown + s'.stats.expired_attempts_reconciled

  -- All rows have been tried, or the task was cancelled.
  pub data Swept (n : ℕ) (cs : List ExpireCall) (s : Sweep W) : Result Done × Sweep W → Type 0 where
    swept : {s' : Sweep W} → Tried n cs s s' → Swept n cs s (ok tt, s')
    stopped : {s' : Sweep W} → Swept n cs s (err cancelled, s')

  failed :
      (e : Error) (s : Sweep W)
      → Tried 1 [] s (record s {
        stats = record s.stats {
          execution_errors = s.stats.execution_errors + 1;
          last_error_type = some e;
        };
      })
  failed e s = record {
    calls = sym (append-nil s.expires);
    counted = omega arith;
    unknown = omega arith;
  }

  caught-Swept : (e : Error) (s : Sweep W) → Swept 1 [] s (caught e s)
  unfolding caught
  caught-Swept cancelled s = stopped
  caught-Swept contract s = swept (failed contract s)
  caught-Swept non_executable s = swept (failed non_executable s)
  caught-Swept live_state_changed s = swept (failed live_state_changed s)
  caught-Swept database_unavailable s = swept (failed database_unavailable s)
  caught-Swept not_sent s = swept (failed not_sent s)
  caught-Swept rejected s = swept (failed rejected s)
  caught-Swept outcome_unknown s = swept (failed outcome_unknown s)
  caught-Swept timeout s = swept (failed timeout s)
  caught-Swept value_error s = swept (failed value_error s)
  caught-Swept type_error s = swept (failed type_error s)
  caught-Swept assertion s = swept (failed assertion s)
  caught-Swept other s = swept (failed other s)

  Tried-more :
      {n m : ℕ} {cs ds : List ExpireCall} {s s' s'' : Sweep W}
      → Tried n cs s s'
      → Tried m ds s' s''
      → Tried (n + m) (cs ++ ds) s s''
  Tried-more {cs = cs} {ds = ds} {s = s} h k = record {
    calls = k.calls ∙ ap (λ l. l ++ ds) h.calls ∙ append_assoc s.expires cs ds;
    counted = omega (arith, h.counted, k.counted);
    unknown = omega (arith, h.unknown, k.unknown);
  }

  next :
      {n : ℕ} {cs ds : List ExpireCall} {s s' s'' : Sweep W}
      → Tried 1 cs s s'
      → Tried n ds s' s''
      → Tried (suc n) (cs ++ ds) s s''
  next h k =
      let t = Tried-more h k in
      record { calls = t.calls; counted = omega (arith, t.counted); unknown = t.unknown }

module _ (py : Runtime) (rec : Reconciler) where
  after_expire-Swept :
      (x : Result Done) (c : ExpireCall) (w : rec.World) (s : Sweep rec.World)
      → Swept 1 (c ∷ []) s (after_expire x (record s { world = w; expires = s.expires ++ c ∷ [] }))
  unfolding after_expire
  after_expire-Swept (ok d) c w s =
      swept (record { calls = refl; counted = omega arith; unknown = omega arith })
  after_expire-Swept (err e) c w s = again _ (caught-Swept e _)
    where
      again :
          (q : Result Done × Sweep rec.World)
          → Swept 1 [] (record s { world = w; expires = s.expires ++ c ∷ [] }) q
          → Swept 1 (c ∷ []) s q
      again _ (swept t) =
          swept
            (record { calls = t.calls ∙ append-nil _; counted = t.counted; unknown = t.unknown })
      again _ stopped = stopped

  expire_parsed-Swept :
      (x : Result SessionRecord) (s : Sweep rec.World)
      → Swept 1 (calls_for x) s (expire_parsed py rec x s)
  unfolding expire_parsed calls_for
  expire_parsed-Swept (ok session) s = after_expire-Swept _ (call_of session) _ s
  expire_parsed-Swept (err e) s = caught-Swept e s

  go_on-Swept :
      (n : ℕ) (cs ds : List ExpireCall) (s : Sweep rec.World) (q : Result Done × Sweep rec.World)
      (rest : Sweep rec.World → Result Done × Sweep rec.World)
      → Swept 1 cs s q
      → ((s' : Sweep rec.World) → Swept n ds s' (rest s'))
      → Swept (suc n) (cs ++ ds) s (go_on py rec q.0 rest q.1)
  unfolding go_on
  go_on-Swept n cs ds s _ rest (swept {s' = s'} t) h = onward _ (h s')
    where
      onward : (q : Result Done × Sweep rec.World) → Swept n ds s' q → Swept (suc n) (cs ++ ds) s q
      onward _ (swept k) = swept (next t k)
      onward _ stopped = stopped
  go_on-Swept n cs ds s _ rest stopped h = stopped

-- Whatever a row or the database raises, the loop over the expired attempts goes on to the next one,
-- and only a cancellation stops it: if it ends otherwise, `expire` was called once for each row that
-- can be read, in the rows' order, with the identifiers of that row, each row is counted as reconciled
-- or as an error, and as many attempts are counted as unknown as are reconciled.
pub expire_rows-Swept :
    (py : Runtime) (rec : Reconciler) (rows : List Fields) (s : Sweep rec.World)
    → Swept (length rows) (calls_of py rows) s (expire_rows py rec rows s)
unfolding expire_rows calls_of
expire_rows-Swept py rec [] s =
    swept (record { calls = sym (append-nil s.expires); counted = omega arith; unknown = refl })
expire_rows-Swept py rec (row ∷ rows) s =
    go_on-Swept py rec (length rows) (calls_for (parse_recovery_session py row true))
      (calls_of py rows) s _ (expire_rows py rec rows)
      (expire_parsed-Swept py rec (parse_recovery_session py row true) s)
      (λ s'. expire_rows-Swept py rec rows s')
