-- ===== src/Contract/Identity.antt =====
-- Which texts are the ids of sketches.
use contract_kit.Prelude.{
  ℕ, ◌+◌, ◌≤◌, Bool, true, false, not, ◌≡◌, ◌↔◌, refl, Option, none, some, [], ◌∷◌, ltb,
  if◌then◌else◌, arith, All,
}
use contract_kit.Prelude.Order.{◌===◌, ===_iff, list_ord, nat_ord, cmp_list}
use contract_kit.Prelude.Results.{ok, err}
use contract_kit.Text.{Text, trim, byte_len, is_empty, is_control, find_control, len_utf8}
use contract_kit.Error.{SketchIdError}
use contract_kit.Contract.{no_control, new_id}

-- No character of the text is a control character.
abbrev pub Printable : Text → Type 0
Printable value = All (λ c. is_control c ≡ false) value

first_control :
    (b : Bool) (index : ℕ) (later : Option ℕ) (P : Type 0)
    → (later ≡ none) ↔ P
    → ((if b then some index else later) ≡ none) ↔ (b ≡ false × P)
first_control true index later P h = (λ e. absurd (ground arith), λ e. absurd (ground (arith, e.0)))
first_control false index later P h = (λ e. (refl, h.0 e), λ e. h.1 e.1)

find_control-none : (index : ℕ) (value : Text) → (find_control index value ≡ none) ↔ Printable value
unfolding find_control
find_control-none index [] = (λ h. tt, λ h. refl)
find_control-none index (c ∷ cs) =
    first_control (is_control c) index (find_control (index + len_utf8 c) cs) (Printable cs)
      (find_control-none (index + len_utf8 c) cs)

chain :
    (a b : Bool) (n m : ℕ) (o : Option ℕ) (value : Text) (x y z : SketchIdError)
    → ((if a then err x else if not b then err y else if ltb m n then err z else no_control value o)
        ≡ ok (record { value = value }))
      ↔ (a ≡ false × b ≡ true × n ≤ m × o ≡ none)
chain a b n m none value x y z = ground arith
chain a b n m (some i) value x y z = ground arith

-- A text is accepted as an id, unchanged, exactly when it is not empty, has no whitespace around
-- it, takes at most the maximum of bytes in UTF-8, and has no control character.
pub new_id_iff :
    (value : Text) (maximum : ℕ)
    → (new_id value maximum ≡ ok (record { value = value }))
      ↔ (is_empty value ≡ false × trim value ≡ value × byte_len value ≤ maximum × Printable value)
unfolding new_id cmp_list
new_id_iff value maximum =
    let tests =
      chain (is_empty value) (trim value === value) (byte_len value) maximum (find_control 0 value)
        value _ _ _ in
    let trimmed = ===_iff (trim value) value in
    let printable = find_control-none 0 value in
    (
      λ h. let t = tests.0 h in (t.0, trimmed.0 t.1, t.2, printable.0 t.3),
      λ h. tests.1 (h.0, trimmed.1 h.1, h.2, printable.1 h.3),
    )
