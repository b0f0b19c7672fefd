-- ===== src/Matching/Cost.antt =====
-- What a search may use of its two budgets, and how it ends where it uses more.
use contract_kit.Prelude.{
  ℕ, suc, ◌+◌, ◌≤◌, ◌<◌, ◌≡◌, refl, sym, ◌∙◌, ◌⊎◌, inl, inr, some, arith, u64_max,
}
use contract_kit.Path.{CatalogPath}
use contract_kit.Error.{
  Error, LimitExceeded, limit_error, matching_line_comparisons, occurrence_candidate_count,
}
use contract_kit.Limits.Matching.{
  MatchingLimits, record_line_comparison, record_occurrence_candidate,
}
use contract_kit.Work.{Work, M, ◌>>=◌, pure, counted, is_interruptible, checkpoint_at}
use contract_kit.Work.Outcome.{
  Ensures, Ensures-bind, Ensures-weaken, Interrupted, Polled, checkpoint_at_outcome,
}

-- A limit of `u64::MAX` switches a budget off.
pub record IsBounded (limits : MatchingLimits) : Type 0 where
  pub comparisons_bounded : limits.line_comparisons < u64_max
  pub candidates_bounded : limits.occurrence_candidates < u64_max

module _ (limits : MatchingLimits) (file : CatalogPath) where
  abbrev pub comparison_error : LimitExceeded
  comparison_error = record {
    resource = matching_line_comparisons;
    limit = limits.line_comparisons;
    observed_at_least = limits.line_comparisons + 1;
    file = some file;
  }

  abbrev pub candidate_error : LimitExceeded
  candidate_error = record {
    resource = occurrence_candidate_count;
    limit = limits.occurrence_candidates;
    observed_at_least = limits.occurrence_candidates + 1;
    file = some file;
  }

  -- The counters are within the budgets.
  pub record Within (w : Work) : Type 0 where
    pub comparisons_within : w.usage.line_comparisons ≤ limits.line_comparisons
    pub candidates_within : w.usage.occurrence_candidates ≤ limits.occurrence_candidates

  -- From `w` to `w'` at most so many comparisons and occurrences were charged.
  pub record Spent (comparisons candidates : ℕ) (w w' : Work) : Type 0 where
    pub few_comparisons : w'.usage.line_comparisons ≤ w.usage.line_comparisons + comparisons
    pub few_candidates : w'.usage.occurrence_candidates ≤ w.usage.occurrence_candidates + candidates
    pub same_thread : is_interruptible w'.cancellation ≡ is_interruptible w.cancellation
    pub within : Within w'

  -- An error says that some thread cancelled the operation, or that a budget is less than what
  -- was charged before and what the search may need.
  abbrev pub Exceeds : ℕ → ℕ → Work → Error → Type 0
  Exceeds comparisons candidates w e =
      Interrupted w e
      ⊎ (e ≡ limit_error comparison_error)
        × (limits.line_comparisons < w.usage.line_comparisons + comparisons)
      ⊎ (e ≡ limit_error candidate_error)
        × (limits.occurrence_candidates < w.usage.occurrence_candidates + candidates)

  -- From any state within the budgets, the operation returns with `P` and a bounded cost, or
  -- exceeds a budget.
  abbrev pub Runs : {A : Type 0} → ℕ → ℕ → (A → Type 0) → M A → Type 0
  Runs comparisons candidates P m =
      (w : Work)
      → Within w
      → Ensures (Exceeds comparisons candidates w) (λ a w'. P a × Spent comparisons candidates w w')
          (m w)

  pub Runs-pure : {A : Type 0} (P : A → Type 0) (a : A) → P a → Runs 0 0 P (pure a)
  Runs-pure P a h w within = (
    h,
    record {
      few_comparisons = omega arith;
      few_candidates = omega arith;
      same_thread = refl;
      within = within;
    },
  )

  later :
      (a b c d : ℕ) (w w' : Work)
      → Spent a b w w'
      → (e : Error) → Exceeds c d w' e
      → Exceeds (a + c) (b + d) w e
  later a b c d w w' s e (inl (x, y)) = inl (x, sym s.same_thread ∙ y)
  later a b c d w w' s e (inr (inl (x, y))) = inr (inl (x, omega (arith, s.few_comparisons)))
  later a b c d w w' s e (inr (inr (x, y))) = inr (inr (x, omega (arith, s.few_candidates)))

  -- A larger allowance.
  raised :
      (a b c d : ℕ) (w : Work) → a ≤ c → b ≤ d → (e : Error) → Exceeds a b w e → Exceeds c d w e
  raised a b c d w hc hd e (inl x) = inl x
  raised a b c d w hc hd e (inr (inl (x, y))) = inr (inl (x, omega arith))
  raised a b c d w hc hd e (inr (inr (x, y))) = inr (inr (x, omega arith))

  Spent-trans :
      (a b c d : ℕ) (u v w : Work) → Spent a b u v → Spent c d v w → Spent (a + c) (b + d) u w
  Spent-trans a b c d u v w s t = record {
    few_comparisons = omega (arith, s.few_comparisons, t.few_comparisons);
    few_candidates = omega (arith, s.few_candidates, t.few_candidates);
    same_thread = t.same_thread ∙ s.same_thread;
    within = t.within;
  }

  Spent-more : (a b c d : ℕ) (w w' : Work) → a ≤ c → b ≤ d → Spent a b w w' → Spent c d w w'
  Spent-more a b c d w w' hc hd s = record {
    few_comparisons = omega (arith, s.few_comparisons);
    few_candidates = omega (arith, s.few_candidates);
    same_thread = s.same_thread;
    within = s.within;
  }

  pub Runs-bind :
      {A B : Type 0} (a b c d : ℕ) (P : A → Type 0) (Q : B → Type 0) (m : M A) (f : A → M B)
      → Runs a b P m
      → ((x : A) → P x → Runs c d Q (f x))
      → Runs (a + c) (b + d) Q (m >>= f)
  Runs-bind a b c d P Q m f h k w within =
      Ensures-bind (Exceeds (a + c) (b + d) w) (λ x w'. P x × Spent a b w w')
        (λ y w'. Q y × Spent (a + c) (b + d) w w') m f w
        (Ensures-weaken (Exceeds a b w) (Exceeds (a + c) (b + d) w) _ (λ x w'. P x × Spent a b w w')
          (m w) (h w within) (λ x w' p. p)
          (raised a b (a + c) (b + d) w (omega arith) (omega arith)))
        (λ x w' (p, s).
          Ensures-weaken (Exceeds c d w') (Exceeds (a + c) (b + d) w)
            (λ y w''. Q y × Spent c d w' w'') (λ y w''. Q y × Spent (a + c) (b + d) w w'') (f x w')
            (k x p w' s.within) (λ y w'' (q, t). (q, Spent-trans a b c d w w' w'' s t))
            (later a b c d w w' s))

  pub Runs-weaken :
      {A : Type 0} (a b c d : ℕ) (P Q : A → Type 0) (m : M A)
      → a ≤ c
      → b ≤ d
      → ((x : A) → P x → Q x)
      → Runs a b P m
      → Runs c d Q m
  Runs-weaken a b c d P Q m hc hd f h w within =
      Ensures-weaken (Exceeds a b w) (Exceeds c d w) (λ x w'. P x × Spent a b w w')
        (λ x w'. Q x × Spent c d w w') (m w) (h w within)
        (λ x w' (p, s). (f x p, Spent-more a b c d w w' hc hd s)) (raised a b c d w hc hd)

  Polled-Spent : (w w' : Work) → Within w → Polled w w' → Spent 0 0 w w'
  Polled-Spent w w' within p = record {
    few_comparisons = rw p.same_usage (omega arith);
    few_candidates = rw p.same_usage (omega arith);
    same_thread = p.same_thread;
    within = record {
      comparisons_within = rw p.same_usage within.comparisons_within;
      candidates_within = rw p.same_usage within.candidates_within;
    };
  }

  pub checkpoint_at-Runs : (index : ℕ) → Runs 0 0 (λ _. Unit {0}) (checkpoint_at index)
  checkpoint_at-Runs index w within =
      Ensures-weaken (Interrupted w) (Exceeds 0 0 w) (λ _ w'. Polled w w') _ (checkpoint_at index w)
        (checkpoint_at_outcome index w) (λ _ w' p. (tt, Polled-Spent w w' within p)) (λ e i. inl i)

  pub comparison_Runs :
      IsBounded limits → Runs 1 0 (λ _. Unit {0}) (counted (record_line_comparison limits file))
  unfolding record_line_comparison
  comparison_Runs bounded w within = ground arith

  pub candidate_Runs :
      IsBounded limits
      → Runs 0 1 (λ _. Unit {0}) (counted (record_occurrence_candidate limits file))
  unfolding record_occurrence_candidate
  candidate_Runs bounded w within = ground arith

  -- The three kinds of a step in front of the rest of a search.
  module _ {A : Type 0} (c d : ℕ) (Q : A → Type 0) (k : M A) (rest : Runs c d Q k) where
    pub after_checkpoint : (index : ℕ) → Runs c d Q (checkpoint_at index >>= λ _. k)
    after_checkpoint index =
        Runs-weaken (0 + c) (0 + d) c d Q Q (checkpoint_at index >>= λ _. k) (omega arith)
          (omega arith) (λ _ q. q)
          (Runs-bind 0 0 c d (λ _. Unit {0}) Q (checkpoint_at index) (λ _. k)
            (checkpoint_at-Runs index) (λ _ _. rest))

    pub after_comparison :
        IsBounded limits
        → Runs (suc c) d Q (counted (record_line_comparison limits file) >>= λ _. k)
    after_comparison bounded =
        Runs-weaken (1 + c) (0 + d) (suc c) d Q Q
          (counted (record_line_comparison limits file) >>= λ _. k) (omega arith) (omega arith)
          (λ _ q. q)
          (Runs-bind 1 0 c d (λ _. Unit {0}) Q (counted (record_line_comparison limits file))
            (λ _. k) (comparison_Runs bounded) (λ _ _. rest))

    pub after_candidate :
        IsBounded limits
        → Runs c (suc d) Q (counted (record_occurrence_candidate limits file) >>= λ _. k)
    after_candidate bounded =
        Runs-weaken (0 + c) (1 + d) c (suc d) Q Q
          (counted (record_occurrence_candidate limits file) >>= λ _. k) (omega arith) (omega arith)
          (λ _ q. q)
          (Runs-bind 0 1 c d (λ _. Unit {0}) Q (counted (record_occurrence_candidate limits file))
            (λ _. k) (candidate_Runs bounded) (λ _ _. rest))
