-- ===== src/Normalize/Rounds.antt =====
-- One round of the loop of `from_bytes`, with its checkpoint, its budgets and its `break`.
use contract_kit.Prelude.{
  ℕ, ◌≤◌, Bool, true, false, ◌&&◌, ◌≡◌, refl, sym, ◌∙◌, ◌⊎◌, inl, inr, [], ◌∷◌, ◌++◌, ◌==◌, arith,
  length-append, saturating_add,
}
use contract_kit.Prelude.Results.{Result, ok, err}
use contract_kit.Error.{Error, LimitExceeded, limit_error}
use contract_kit.Work.{Work, M, ◌>>=◌, pure, limited, checkpoint_at}
use contract_kit.Work.Outcome.{
  Ensures, Ensures-bind, Ensures-weaken, Interrupted, Polled, Polled-trans, checkpoint_at_outcome,
}
use contract_kit.Normalize.{Bytes, NormalizationBudget, Scan, Flow, broken, running, visit}
use contract_kit.Normalize.Reference.{split_lines, count_lines, split_mono}
use contract_kit.Normalize.Scanning.{IsBounded, Overflows, Holds, Pushed, push_byte-Pushed}

-- A normalization ends in an error because some thread cancelled it, or because the canonical
-- text is beyond a budget.
abbrev pub Fails : NormalizationBudget → Bytes → Work → Error → Type 0
Fails budget total w e =
    Interrupted w e ⊎ ((x : LimitExceeded) × (e ≡ limit_error x) × (Overflows budget total x))

-- `processed` only places the checkpoints.
pub recounted :
    {budget : NormalizationBudget} (out : Bytes) (s : Scan) (n : ℕ)
    → Holds budget out s
    → Holds budget out (record s { processed = n })
recounted out s n h = record {
  normalized_is = h.normalized_is;
  lines_are = h.lines_are;
  counted = h.counted;
  start_fits = h.start_fits;
  ranges_fit = h.ranges_fit;
  bytes_fit = h.bytes_fit;
  lines_fit = h.lines_fit;
}

-- Behind the bytes that are stored, `todo` is still to come.
module _ (budget : NormalizationBudget) (bounded : IsBounded budget) where
  -- The first checkpoint of a round.
  polled :
      {A : Type 0} (index : ℕ) (w : Work) (total : Bytes) (Q : A → Work → Type 0) (rest : M A)
      → ((w' : Work) → Polled w w' → Ensures (Fails budget total w) Q (rest w'))
      → Ensures (Fails budget total w) Q ((checkpoint_at index >>= λ _. rest) w)
  polled index w total Q rest k =
      Ensures-bind (Fails budget total w) (λ _ w'. Polled w w') Q (checkpoint_at index) (λ _. rest)
        w
        (Ensures-weaken (Interrupted w) (Fails budget total w) (λ _ w'. Polled w w')
          (λ _ w'. Polled w w') (checkpoint_at index w) (checkpoint_at_outcome index w) (λ _ _ p. p)
          (λ e i. inl i))
        (λ _ w' p. k w' p)

  -- The flag of the state's thread is the same after a checkpoint.
  pub visit-newline_last :
      (b : ℕ) (out : Bytes) (s : Scan) (w : Work) (total : Bytes)
      → (b == b'\n') ≡ true
      → Holds budget out s
      → Ensures
          (Fails budget total w)
          (λ flow w'. (t : Scan) × (flow ≡ broken t) × Holds budget out t × Polled w w')
          (visit budget b true s w)
  unfolding visit
  visit-newline_last b out s w total e h = polled s.processed w total _ _ (λ w' p.
      rw e (record s { processed = saturating_add s.processed 1 }, refl, recounted out s _ h, p))

  store_outcome :
      (out : Bytes) (w w' : Work) (total : Bytes)
      → Polled w w'
      → ((x : LimitExceeded) → Overflows budget out x → Overflows budget total x)
      → (r : Result LimitExceeded Scan) → Pushed budget out r
      → Ensures
          (Fails budget total w)
          (λ flow w''. (t : Scan) × (flow ≡ running t) × Holds budget out t × Polled w w'')
          ((limited r >>= λ t. pure (running t)) w')
  store_outcome out w w' total p grows (ok t) h = (t, refl, h, p)
  store_outcome out w w' total p grows (err x) h = inr (x, refl, grows x h)

  pub visit-store :
      (b : ℕ) (last : Bool) (out : Bytes) (s : Scan) (w : Work) (total : Bytes)
      → (b == b'\n' && last) ≡ false
      → Holds budget out s
      → ((x : LimitExceeded) → Overflows budget (out ++ b ∷ []) x → Overflows budget total x)
      → Ensures
          (Fails budget total w)
          (λ flow w'.
            (t : Scan) × (flow ≡ running t) × Holds budget (out ++ b ∷ []) t × Polled w w')
          (visit budget b last s w)
  unfolding visit
  visit-store b last out s w total e h grows = polled s.processed w total _ _ (λ w' p. rw e (
      store_outcome (out ++ b ∷ []) w w' total p grows _
        (push_byte-Pushed budget out b _ bounded (recounted out s _ h))))

  unfoldable pub Reaches : Bytes → Work → Scan → Work → Type 0
  Reaches total w t w' = Holds budget total t × Polled w w'

  -- The round in the loop: behind a `break`, and behind any other end of a round.
  pub stopped :
      (total : Bytes) (w : Work) (m : M Flow) (k : Scan → M Scan)
      → Ensures
          (Fails budget total w)
          (λ flow w'. (t : Scan) × (flow ≡ broken t) × Holds budget total t × Polled w w')
          (m w)
      → Ensures
          (Fails budget total w)
          (Reaches total w)
          ((m >>= λ flow. elim flow [ broken t ↦ pure t | running t ↦ k t ]) w)
  unfolding Reaches
  stopped total w m k h =
      Ensures-bind (Fails budget total w) _ (Reaches total w) m _ w h
        (λ flow w' (t, e, holds, p). rw e (holds, p))

  pub earlier :
      (total : Bytes) (w w' : Work)
      → Polled w w'
      → (r : Result Error (Scan × Work)) → Ensures (Fails budget total w') (Reaches total w') r
      → Ensures (Fails budget total w) (Reaches total w) r
  unfolding Reaches
  earlier total w w' p (ok r) (holds, q) = (holds, Polled-trans w w' r.1 p q)
  earlier total w w' p (err e) (inl (c, i)) = inl (c, sym p.same_thread ∙ i)
  earlier total w w' p (err e) (inr x) = inr x

  pub went_on :
      (out total : Bytes) (w : Work) (m : M Flow) (k : Scan → M Scan)
      → Ensures
          (Fails budget total w)
          (λ flow w'. (t : Scan) × (flow ≡ running t) × Holds budget out t × Polled w w')
          (m w)
      → ((t : Scan) (w' : Work)
          → Holds budget out t
          → Ensures (Fails budget total w') (Reaches total w') (k t w'))
      → Ensures
          (Fails budget total w)
          (Reaches total w)
          ((m >>= λ flow. elim flow [ broken t ↦ pure t | running t ↦ k t ]) w)
  went_on out total w m k h next =
      Ensures-bind (Fails budget total w) _ (Reaches total w) m _ w h
        (λ flow w' (t, e, holds, p). rw e (earlier total w w' p (k t w') (next t w' holds)))

count_lines_mono : (p q : Bytes) → count_lines p ≤ count_lines (p ++ q)
unfolding split_lines
count_lines_mono [] q = omega arith
count_lines_mono (c ∷ p) q = split_mono b'\n' (c ∷ p) q

pub Overflows-append :
    (budget : NormalizationBudget) (p q : Bytes) (x : LimitExceeded)
    → Overflows budget p x
    → Overflows budget (p ++ q) x
Overflows-append budget p q x (inl (e, h)) = inl (e, omega (arith, h, length-append p q))
Overflows-append budget p q x (inr (e, h)) = inr (e, omega (arith, h, count_lines_mono p q))
