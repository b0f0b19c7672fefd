-- ===== src/Work/Outcome.antt =====
-- How an operation may end: what holds of its result, and what its error says.
use contract_kit.Prelude.{
  Bool, false, ℕ, zero, suc, ◌%◌, true, ◌≡◌, refl, ◌==◌, Bool-cases, inl, inr, ◌∙◌, sym,
}
use contract_kit.Prelude.Results.{Result, ok, err, fail_if}
use contract_kit.Error.{Error, operation_cancelled}
use contract_kit.Work.{
  Work, M, ◌>>=◌, is_interruptible, CancellationProbe, uncancelled, cancelled_after, checkpoint,
  checkpoint_at, pure, lift, raise,
}

-- The result satisfies `P` with the state that is left, or the error satisfies `E`.
abbrev pub Ensures :
    {A : Type 0} → (Error → Type 0) → (A → Work → Type 0) → Result Error (A × Work) → Type 0
Ensures E P (ok r) = P r.0 r.1
Ensures E P (err e) = E e

pub Ensures-bind :
    {A B : Type 0} (E : Error → Type 0) (P : A → Work → Type 0) (Q : B → Work → Type 0) (m : M A)
    (f : A → M B) (w : Work)
    → Ensures E P (m w)
    → ((a : A) (w' : Work) → P a w' → Ensures E Q (f a w'))
    → Ensures E Q ((m >>= f) w)
Ensures-bind {A} {B} E P Q m f w = go (m w)
  where
    go :
        (r : Result Error (A × Work))
        → Ensures E P r
        → ((a : A) (w' : Work) → P a w' → Ensures E Q (f a w'))
        → Ensures E Q (elim r [ ok (a, w') ↦ f a w' | err e ↦ err e ])
    go (ok (a, w')) h k = k a w' h
    go (err e) h k = h

pub Ensures-weaken :
    {A : Type 0} (E F : Error → Type 0) (P Q : A → Work → Type 0) (r : Result Error (A × Work))
    → Ensures E P r
    → ((a : A) (w : Work) → P a w → Q a w)
    → ((e : Error) → E e → F e)
    → Ensures F Q r
Ensures-weaken E F P Q (ok (a, w)) h p e = p a w h
Ensures-weaken E F P Q (err x) h p e = e x h

-- The operation was cancelled, and some thread did cancel it.
abbrev pub Interrupted : Work → Error → Type 0
Interrupted w e = (e ≡ operation_cancelled) × (is_interruptible w.cancellation ≡ true)

-- Only loads of the probe lie between the two states.
pub record Polled (w w' : Work) : Type 0 where
  pub same_usage : w'.usage ≡ w.usage
  pub same_thread : is_interruptible w'.cancellation ≡ is_interruptible w.cancellation

pub Polled-refl : (w : Work) → Polled w w
Polled-refl w = record { same_usage = refl; same_thread = refl }

pub Polled-trans : (u v w : Work) → Polled u v → Polled v w → Polled u w
Polled-trans u v w p q = record {
  same_usage = q.same_usage ∙ p.same_usage;
  same_thread = q.same_thread ∙ p.same_thread;
}

checkpoint_outcome_at :
    (p : CancellationProbe) (w : Work)
    → w.cancellation ≡ p
    → Ensures (Interrupted w) (λ _ w'. Polled w w') (checkpoint w)
unfolding checkpoint
checkpoint_outcome_at uncancelled w e = rw e (record { same_usage = refl; same_thread = cc })
checkpoint_outcome_at (cancelled_after zero) w e = rw e (refl, refl)
checkpoint_outcome_at (cancelled_after (suc n)) w e =
    rw e (record { same_usage = refl; same_thread = refl })

pub checkpoint_outcome : (w : Work) → Ensures (Interrupted w) (λ _ w'. Polled w w') (checkpoint w)
checkpoint_outcome w = checkpoint_outcome_at w.cancellation w refl

pub checkpoint_at_outcome :
    (index : ℕ) (w : Work) → Ensures (Interrupted w) (λ _ w'. Polled w w') (checkpoint_at index w)
unfolding checkpoint_at
checkpoint_at_outcome index w = elim (Bool-cases (index % 1024 == 0)) [
  | inl at ↦ rw at (checkpoint_outcome w)
  | inr past ↦ rw past (Polled-refl w)
]

-- Whatever the operation returns satisfies `P`; its errors are left open.
unfoldable pub Yields : {A : Type 0} → (A → Type 0) → M A → Type 0
Yields P m = (w : Work) → Ensures (λ _. Unit {0}) (λ a _. P a) (m w)

pub Yields-bind :
    {A B : Type 0} (P : A → Type 0) (Q : B → Type 0) (m : M A) (f : A → M B)
    → Yields P m
    → ((a : A) → P a → Yields Q (f a))
    → Yields Q (m >>= f)
unfolding Yields
Yields-bind P Q m f h k w =
    Ensures-bind (λ _. Unit {0}) (λ a _. P a) (λ b _. Q b) m f w (h w) (λ a w' p. k a p w')

pub Yields-both :
    {A : Type 0} (P Q : A → Type 0) (m : M A) → Yields P m → Yields Q m → Yields (λ a. P a × Q a) m
unfolding Yields
Yields-both {A} P Q m h k w = go (m w) (h w) (k w)
  where
    go :
        (r : Result Error (A × Work))
        → Ensures (λ _. Unit {0}) (λ a _. P a) r
        → Ensures (λ _. Unit {0}) (λ a _. Q a) r
        → Ensures (λ _. Unit {0}) (λ a _. P a × Q a) r
    go (ok (a, w')) p q = (p, q)
    go (err e) p q = tt

any_result :
    {A : Type 0} (r : Result Error (A × Work)) → Ensures (λ _. Unit {0}) (λ _ _. Unit {0}) r
any_result (ok r) = tt
any_result (err e) = tt

-- A step of whose result nothing has to be known.
pub Yields-after :
    {A B : Type 0} (Q : B → Type 0) (m : M A) (f : A → M B)
    → ((a : A) → Yields Q (f a))
    → Yields Q (m >>= f)
unfolding Yields
Yields-after Q m f k = Yields-bind (λ _. Unit {0}) Q m f (λ w. any_result (m w)) (λ a _. k a)

pub Yields-ok :
    {A : Type 0} (P : A → Type 0) (m : M A) (w w' : Work) (a : A)
    → Yields P m
    → m w ≡ ok (a, w')
    → P a
unfolding Yields
Yields-ok P m w w' a h e = rw e at (h w)

pub Yields-pure : {A : Type 0} (P : A → Type 0) (a : A) → P a → Yields P (pure a)
unfolding Yields
Yields-pure P a h w = h

pub Yields-weaken :
    {A : Type 0} (P Q : A → Type 0) (m : M A) → Yields P m → ((a : A) → P a → Q a) → Yields Q m
unfolding Yields
Yields-weaken P Q m h k w =
    Ensures-weaken (λ _. Unit {0}) (λ _. Unit {0}) (λ a _. P a) (λ a _. Q a) (m w) (h w)
      (λ a _ p. k a p) (λ _ _. tt)

-- An operation whose errors are all ruled out returns.
pub Ensures-total :
    {A : Type 0} (E : Error → Type 0) (P : A → Work → Type 0) (r : Result Error (A × Work))
    → Ensures E P r
    → ((e : Error) → ¬ E e)
    → (a : A) × (w' : Work) × (r ≡ ok (a, w')) × P a w'
Ensures-total E P (ok (a, w')) h none_fails = (a, w', refl, h)
Ensures-total E P (err e) h none_fails = absurd (none_fails e h)

-- The operation only polls: it returns with `P`, or it was cancelled.
unfoldable pub Polls : {A : Type 0} → (A → Type 0) → M A → Type 0
Polls P m = (w : Work) → Ensures (Interrupted w) (λ a w'. P a × Polled w w') (m w)

pub Polls-pure : {A : Type 0} (P : A → Type 0) (a : A) → P a → Polls P (pure a)
unfolding Polls
Polls-pure P a h w = (h, Polled-refl w)

pub Polls-weaken :
    {A : Type 0} (P Q : A → Type 0) (m : M A) → Polls P m → ((a : A) → P a → Q a) → Polls Q m
unfolding Polls
Polls-weaken P Q m h k w =
    Ensures-weaken (Interrupted w) (Interrupted w) (λ a w'. P a × Polled w w')
      (λ a w'. Q a × Polled w w') (m w) (h w) (λ a w' p. (k a p.0, p.1)) (λ e i. i)

pub Polls-bind :
    {A B : Type 0} (P : A → Type 0) (Q : B → Type 0) (m : M A) (f : A → M B)
    → Polls P m
    → ((a : A) → P a → Polls Q (f a))
    → Polls Q (m >>= f)
unfolding Polls
Polls-bind P Q m f h k w =
    Ensures-bind (Interrupted w) (λ a w'. P a × Polled w w') (λ b w'. Q b × Polled w w') m f w (h w)
      (λ a w' p.
        Ensures-weaken (Interrupted w') (Interrupted w) (λ b w''. Q b × Polled w' w'')
          (λ b w''. Q b × Polled w w'') (f a w') (k a p.0 w')
          (λ b w'' q. (q.0, Polled-trans w w' w'' p.1 q.1))
          (λ e i. (i.0, sym p.1.same_thread ∙ i.1)))

-- The checkpoint in front of a round.
pub Polls-checkpoint_at :
    {B : Type 0} (Q : B → Type 0) (index : ℕ) (k : M B)
    → Polls Q k
    → Polls Q (checkpoint_at index >>= λ _. k)
unfolding Polls
Polls-checkpoint_at Q index k rest =
    Polls-bind (λ _. Unit {0}) Q (checkpoint_at index) (λ _. k)
      (λ w.
        Ensures-weaken (Interrupted w) (Interrupted w) (λ _ w'. Polled w w')
          (λ _ w'. Unit {0} × Polled w w') (checkpoint_at index w) (checkpoint_at_outcome index w)
          (λ _ w' p. (tt, p)) (λ e i. i))
      (λ _ _. rest)

pub checkpoint-Polls : Polls (λ _. Unit {0}) checkpoint
unfolding Polls
checkpoint-Polls w =
    Ensures-weaken (Interrupted w) (Interrupted w) (λ _ w'. Polled w w')
      (λ _ w'. Unit {0} × Polled w w') (checkpoint w) (checkpoint_outcome w) (λ _ w' p. (tt, p))
      (λ e i. i)

-- A step that only looks at a result.
pub Yields-lift :
    {A B : Type 0} (Q : B → Type 0) (r : Result Error A) (f : A → M B)
    → ((a : A) → r ≡ ok a → Yields Q (f a))
    → Yields Q (lift r >>= f)
unfolding Yields
Yields-lift Q (ok a) f k w = k a refl w
Yields-lift Q (err e) f k w = tt

-- The operation returns `a` from some state.
abbrev pub Returns : {A : Type 0} → M A → A → Type 0
Returns m a = (w : Work) × (w' : Work) × (m w ≡ ok (a, w'))

-- A step of which only that it returned is kept.
pub Yields-returned :
    {A B : Type 0} (Q : B → Type 0) (m : M A) (f : A → M B)
    → ((a : A) → Returns m a → Yields Q (f a))
    → Yields Q (m >>= f)
unfolding Yields
Yields-returned {A} {B} Q m f k w = go (m w) refl
  where
    go :
        (r : Result Error (A × Work))
        → m w ≡ r
        → Ensures (λ _. Unit {0}) (λ b _. Q b) (elim r [ ok (a, w') ↦ f a w' | err e ↦ err e ])
    go (ok (a, w')) e = k a (w, w', e) w'
    go (err e) h = tt

-- A step that fails behind a test.
pub Yields-refusing :
    {B : Type 0} (Q : B → Type 0) (test : Bool) (e : Error) (k : M B)
    → (test ≡ false → Yields Q k)
    → Yields Q (lift (fail_if test e) >>= λ _. k)
unfolding Yields
Yields-refusing Q true e k h w = tt
Yields-refusing Q false e k h w = h refl w

pub Yields-raise : {A : Type 0} (P : A → Type 0) (e : Error) → Yields P (raise e)
unfolding Yields
Yields-raise P e w = tt

pub Polls-Yields : {A : Type 0} (P : A → Type 0) (m : M A) → Polls P m → Yields P m
unfolding Polls Yields
Polls-Yields P m h w =
    Ensures-weaken (Interrupted w) (λ _. Unit {0}) (λ a w'. P a × Polled w w') (λ a _. P a) (m w)
      (h w) (λ a w' p. p.0) (λ e i. tt)
