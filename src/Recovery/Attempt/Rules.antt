-- ===== src/Recovery/Attempt/Rules.antt =====
-- What an action writes to the two logs of a run, the commands sent and the results finished, and
-- the rules by which that adds up along a `do` block.
use failure_resolver.Prelude.{◌≡◌, refl, sym, ap, ◌∙◌, List, [], ◌++◌, append-nil, append_assoc}
use failure_resolver.Errors.{Error, Result, ok, err}
use failure_resolver.Recovery.Attempt.Monad.{Finish, Command, Run, M, pure, lift, continue, ◌>>=◌}

-- What holds of the value and the state after an action, and of the error and the state.
pub data Post {W A : Type 0} (Q : A → Run W → Type 0) (E : Error → Run W → Type 0)
    : Result A × Run W → Type 0 where
  returned : {a : A} {r : Run W} → Q a r → Post Q E (ok a, r)
  raised : {e : Error} {r : Run W} → E e r → Post Q E (err e, r)

-- `log` is `base` with a first part of `planned` behind it.
abbrev pub Extends : {A : Type 0} → List A → List A → List A → Type 0
Extends {A} planned base log =
    (seen rest : List A) × (planned ≡ seen ++ rest) × (log ≡ base ++ seen)

module _ {A : Type 0} where
  pub Extends-none : (planned base : List A) → Extends planned base base
  Extends-none planned base = ([], planned, refl, sym (append-nil base))

  pub Extends-all : (planned base : List A) → Extends planned base (base ++ planned)
  Extends-all planned base = (planned, [], sym (append-nil planned), refl)

  -- More may be planned behind.
  pub Extends-append : (xs ys base log : List A) → Extends xs base log → Extends (xs ++ ys) base log
  Extends-append xs ys base log (seen, rest, split, e) =
      (seen, rest ++ ys, ap (λ l. l ++ ys) split ∙ append_assoc seen rest ys, e)

  -- And what is behind may have begun, once all before it is in the log.
  pub Extends-behind :
      (xs ys base mid log : List A)
      → mid ≡ base ++ xs
      → Extends ys mid log
      → Extends (xs ++ ys) base log
  Extends-behind xs ys base mid log all (seen, rest, split, e) = (
    xs ++ seen,
    rest,
    ap (λ l. xs ++ l) split ∙ sym (append_assoc xs seen rest),
    e ∙ ap (λ l. l ++ seen) all ∙ append_assoc base xs seen,
  )

module _ {W : Type 0} where
  -- All of `cs` and `fs` are in the logs.
  pub record Wrote (cs : List Command) (fs : List Finish) (r r' : Run W) : Type 0 where
    pub sent : r'.sent ≡ r.sent ++ cs
    pub finishes : r'.finishes ≡ r.finishes ++ fs

  -- A first part of `cs` and of `fs` is in the logs.
  pub record Began (cs : List Command) (fs : List Finish) (r r' : Run W) : Type 0 where
    pub sent : Extends cs r.sent r'.sent
    pub finishes : Extends fs r.finishes r'.finishes

  -- An action that returns has written `cs` and `fs`; one that raises, a first part of them.
  pub record Emits {A : Type 0} (cs : List Command) (fs : List Finish) (m : M W A) : Type 0 where
    pub at : (r : Run W) → Post (λ _ r'. Wrote cs fs r r') (λ _ r'. Began cs fs r r') (m r)

  pub Wrote-none : (r : Run W) → Wrote [] [] r r
  Wrote-none r = record { sent = sym (append-nil r.sent); finishes = sym (append-nil r.finishes) }

  pub Began-none : (cs : List Command) (fs : List Finish) (r : Run W) → Began cs fs r r
  Began-none cs fs r = record {
    sent = Extends-none cs r.sent;
    finishes = Extends-none fs r.finishes;
  }

module _ {W A B : Type 0} where
  pub continue-Post :
      (Q : A → Run W → Type 0) (E : Error → Run W → Type 0) (Q' : B → Run W → Type 0)
      (E' : Error → Run W → Type 0) (f : A → M W B) (p : Result A × Run W)
      → Post Q E p
      → ((a : A) (r : Run W) → Q a r → Post Q' E' (f a r))
      → ((e : Error) (r : Run W) → E e r → E' e r)
      → Post Q' E' (continue p.0 f p.1)
  unfolding continue
  continue-Post Q E Q' E' f p (returned {a = a} {r = r} q) hf he = hf a r q
  continue-Post Q E Q' E' f p (raised {e = e} {r = r} q) hf he = raised (he e r q)

  pub bind-Post :
      {Q : A → Run W → Type 0} {E : Error → Run W → Type 0} {Q' : B → Run W → Type 0}
      {E' : Error → Run W → Type 0} (m : M W A) {f : A → M W B} {r : Run W}
      → Post Q E (m r)
      → ((a : A) (r' : Run W) → Q a r' → Post Q' E' (f a r'))
      → ((e : Error) (r' : Run W) → E e r' → E' e r')
      → Post Q' E' ((m >>= f) r)
  unfolding ◌>>=◌
  bind-Post {Q} {E} {Q'} {E'} m {f} {r} h hf he = continue-Post Q E Q' E' f (m r) h hf he

module _ {W A : Type 0} where
  pub weaken-Post :
      {Q Q' : A → Run W → Type 0} {E E' : Error → Run W → Type 0} {p : Result A × Run W}
      → Post Q E p
      → ((a : A) (r : Run W) → Q a r → Q' a r)
      → ((e : Error) (r : Run W) → E e r → E' e r)
      → Post Q' E' p
  weaken-Post (returned {a = a} {r = r} q) hq he = returned (hq a r q)
  weaken-Post (raised {e = e} {r = r} q) hq he = raised (he e r q)

  pub Emits-pure : (a : A) → Emits {W = W} [] [] (pure a)
  unfolding pure
  Emits-pure a = record { at = λ r. returned (Wrote-none r) }

  lift_at :
      (m : Result A) (r : Run W) → Post (λ _ r'. Wrote [] [] r r') (λ _ r'. Began [] [] r r') (m, r)
  lift_at (ok a) r = returned (Wrote-none r)
  lift_at (err e) r = raised (Began-none [] [] r)

  -- An action that leaves the logs and the state alone.
  pub Emits-lift : (m : Result A) → Emits {W = W} [] [] (lift m)
  unfolding lift
  Emits-lift m = record { at = λ r. lift_at m r }

module _ {W : Type 0} where
  pub then-Wrote :
      (cs cs' : List Command) (fs fs' : List Finish) (r mid r' : Run W)
      → Wrote cs fs r mid
      → Wrote cs' fs' mid r'
      → Wrote (cs ++ cs') (fs ++ fs') r r'
  then-Wrote cs cs' fs fs' r mid r' h k = record {
    sent = k.sent ∙ ap (λ l. l ++ cs') h.sent ∙ append_assoc r.sent cs cs';
    finishes = k.finishes ∙ ap (λ l. l ++ fs') h.finishes ∙ append_assoc r.finishes fs fs';
  }

  then-Began :
      (cs cs' : List Command) (fs fs' : List Finish) (r mid r' : Run W)
      → Wrote cs fs r mid
      → Began cs' fs' mid r'
      → Began (cs ++ cs') (fs ++ fs') r r'
  then-Began cs cs' fs fs' r mid r' h k = record {
    sent = Extends-behind cs cs' r.sent mid.sent r'.sent h.sent k.sent;
    finishes = Extends-behind fs fs' r.finishes mid.finishes r'.finishes h.finishes k.finishes;
  }

  Began-append :
      (cs cs' : List Command) (fs fs' : List Finish) (r r' : Run W)
      → Began cs fs r r'
      → Began (cs ++ cs') (fs ++ fs') r r'
  Began-append cs cs' fs fs' r r' h = record {
    sent = Extends-append cs cs' r.sent r'.sent h.sent;
    finishes = Extends-append fs fs' r.finishes r'.finishes h.finishes;
  }

module _ {W A B : Type 0} where
  pub Emits-bind :
      {cs cs' : List Command} {fs fs' : List Finish} {m : M W A} {f : A → M W B}
      → Emits cs fs m
      → ((a : A) → Emits cs' fs' (f a))
      → Emits (cs ++ cs') (fs ++ fs') (m >>= f)
  Emits-bind {cs} {cs'} {fs} {fs'} {m} {f} h k = record {
    at = λ r.
        bind-Post m (h.at r)
          (λ a mid w.
            weaken-Post ((k a).at mid) (λ _ r' w'. then-Wrote cs cs' fs fs' r mid r' w w')
              (λ _ r' b. then-Began cs cs' fs fs' r mid r' w b))
          (λ _ r' b. Began-append cs cs' fs fs' r r' b);
  }

  -- The rest of the block may use what the lifted call returned.
  pub Emits-bind-lift :
      {cs : List Command} {fs : List Finish} (m : Result A) {f : A → M W B}
      → ((a : A) → m ≡ ok a → Emits cs fs (f a))
      → Emits cs fs (lift m >>= f)
  unfolding lift ◌>>=◌
  Emits-bind-lift (ok a) k = k a refl
  Emits-bind-lift {cs} {fs} (err e) k = record { at = λ r. raised (Began-none cs fs r) }

-- What is written is known from the value that is returned; after an error, a first part of the
-- commands was sent.
pub record EmitsBy {W A : Type 0} (cs : List Command) (f : A → List Finish) (m : M W A)
    : Type 0 where
  pub at :
      (r : Run W) → Post (λ a r'. Wrote cs (f a) r r') (λ _ r'. Extends cs r.sent r'.sent) (m r)

module _ {W A B : Type 0} where
  pub EmitsBy-bind :
      {cs cs' : List Command} {fs : List Finish} {g : B → List Finish} {m : M W A} {f : A → M W B}
      → Emits cs fs m
      → ((a : A) → EmitsBy cs' g (f a))
      → EmitsBy (cs ++ cs') (λ b. fs ++ g b) (m >>= f)
  EmitsBy-bind {cs} {cs'} {fs} {g} {m} {f} h k = record {
    at = λ r.
        bind-Post m (h.at r)
          (λ a mid w.
            weaken-Post ((k a).at mid) (λ b r' w'. then-Wrote cs cs' fs (g b) r mid r' w w')
              (λ _ r' b. Extends-behind cs cs' r.sent mid.sent r'.sent w.sent b))
          (λ _ r' b. Extends-append cs cs' r.sent r'.sent b.sent);
  }

module _ {W A : Type 0} where
  pub any-Post : (p : Result A × Run W) → Post (λ _ _. Unit {0}) (λ _ _. Unit {0}) p
  any-Post (ok a, r) = returned tt
  any-Post (err e, r) = raised tt

  pub both-Post :
      {Q Q' : A → Run W → Type 0} {E E' : Error → Run W → Type 0} {p : Result A × Run W}
      → Post Q E p
      → Post Q' E' p
      → Post (λ a r. Q a r × Q' a r) (λ e r. E e r × E' e r) p
  both-Post (returned q) (returned q') = returned (q, q')
  both-Post (raised q) (raised q') = raised (q, q')
