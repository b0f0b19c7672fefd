-- ===== src/Matcher/Accounts.antt =====
-- Diagnostics that are those of one contract after the other.
use mathlib.Core.Path.{subst}
use contract_kit.Prelude.{
  ℕ, ◌+◌, ◌≡◌, refl, ap, sym, ◌∙◌, List, [], ◌∷◌, ◌++◌, arith, length, length-append, append_assoc,
  append-nil, All,
}
use contract_kit.Path.{path_ord}
use contract_kit.Contract.{SketchContract}
use contract_kit.Inventory.{SketchDiagnostic}
use contract_kit.Matcher.{SketchDiagnostics}
use contract_kit.Matcher.Reporting.{matches, Adds}

-- The diagnostics are those of one contract after the other, and as many contracts as counted have
-- none.
abbrev pub Accounts :
    (SketchContract → List SketchDiagnostic → Type 0)
    → List SketchContract
    → List SketchDiagnostic
    → ℕ
    → Type 0
Accounts R [] ds matched = (ds ≡ []) × (matched ≡ 0)
Accounts R (c ∷ cs) ds matched =
    (own : List SketchDiagnostic) × (later : List SketchDiagnostic) × (more : ℕ) × R c own
    × (ds ≡ own ++ later)
    × (matched ≡ matches own + more)
    × Accounts R cs later more

pub Accounts-append :
    (R : SketchContract → List SketchDiagnostic → Type 0) (cs cs' : List SketchContract)
    (ds ds' : List SketchDiagnostic) (n n' : ℕ)
    → Accounts R cs ds n
    → Accounts R cs' ds' n'
    → Accounts R (cs ++ cs') (ds ++ ds') (n + n')
Accounts-append R [] cs' ds ds' n n' (e, z) h =
    let same : n' ≡ 0 + n' = omega arith in rw (e, z) (subst (λ k. Accounts R cs' ds' k) same h)
Accounts-append R (c ∷ cs) cs' ds ds' n n' (own, later, more, r, e, k, rest) h = (
  own,
  later ++ ds',
  more + n',
  r,
  rw e (append_assoc own later ds'),
  omega (arith, k),
  Accounts-append R cs cs' later ds' more n' rest h,
)

pub Accounts-map :
    (N : SketchContract → Type 0) (R S : SketchContract → List SketchDiagnostic → Type 0)
    → ((c : SketchContract) (own : List SketchDiagnostic) → N c → R c own → S c own)
    → (cs : List SketchContract) (ds : List SketchDiagnostic) (n : ℕ) → All N cs
    → Accounts R cs ds n
    → Accounts S cs ds n
Accounts-map N R S f [] ds n a h = h
Accounts-map N R S f (c ∷ cs) ds n a (own, later, more, r, e, k, rest) =
    (own, later, more, f c own a.0 r, e, k, Accounts-map N R S f cs later more a.1 rest)

pub Accounts-length :
    (R : SketchContract → List SketchDiagnostic → Type 0)
    → ((c : SketchContract) (own : List SketchDiagnostic) → R c own → matches own + length own ≡ 1)
    → (cs : List SketchContract) (ds : List SketchDiagnostic) (n : ℕ) → Accounts R cs ds n
    → n + length ds ≡ length cs
Accounts-length R one [] ds n (e, z) = rw (e, z) refl
Accounts-length R one (c ∷ cs) ds n (own, later, more, r, e, k, rest) = rw e (
    omega
      (arith, one c own r, k, length-append own later, Accounts-length R one cs later more rest))

-- The diagnostics so far were continued by those of the contracts.
pub record Continues (R : SketchContract → List SketchDiagnostic → Type 0)
    (cs : List SketchContract) (matched : ℕ) (output : SketchDiagnostics)
    (r : ℕ × SketchDiagnostics) : Type 0 where
  pub added : List SketchDiagnostic
  pub count : ℕ
  pub appended : r.1.entries ≡ output.entries ++ added
  pub counted : r.0 ≡ matched + count
  pub accounts : Accounts R cs added count

module _ (R : SketchContract → List SketchDiagnostic → Type 0) where
  pub Continues-nil :
      (matched : ℕ) (output : SketchDiagnostics) → Continues R [] matched output (matched, output)
  Continues-nil matched output = record {
    added = [];
    count = 0;
    appended = sym (append-nil output.entries);
    counted = omega arith;
    accounts = (refl, refl);
  }

  pub Continues-cons :
      (c : SketchContract) (cs : List SketchContract) (matched : ℕ) (output : SketchDiagnostics)
      (r s : ℕ × SketchDiagnostics)
      → Adds (R c) matched output r
      → Continues R cs r.0 r.1 s
      → Continues R (c ∷ cs) matched output s
  Continues-cons c cs matched output r s (own, is, e, k) h = record {
    added = own ++ h.added;
    count = matches own + h.count;
    appended = h.appended ∙ (ap (λ ds. ds ++ h.added) e ∙ append_assoc output.entries own h.added);
    counted = omega (arith, k, h.counted);
    accounts = (own, h.added, h.count, is, refl, refl, h.accounts);
  }

  pub Continues-trans :
      (cs cs' : List SketchContract) (matched : ℕ) (output : SketchDiagnostics)
      (r s : ℕ × SketchDiagnostics)
      → Continues R cs matched output r
      → Continues R cs' r.0 r.1 s
      → Continues R (cs ++ cs') matched output s
  Continues-trans cs cs' matched output r s first h = record {
    added = first.added ++ h.added;
    count = first.count + h.count;
    appended =
        h.appended
        ∙ (ap (λ ds. ds ++ h.added) first.appended
            ∙ append_assoc output.entries first.added h.added);
    counted = omega (arith, first.counted, h.counted);
    accounts =
        Accounts-append R cs cs' first.added h.added first.count h.count first.accounts h.accounts;
  }
