-- ===== src/Path/Grammar.antt =====
-- Which texts are catalog paths.
use contract_kit.Prelude.{
  ℕ, Bool, false, ◌||◌, ◌≡◌, ◌≢◌, ◌↔◌, refl, List, [], ◌∷◌, arith, All, Bool-cases, inl, inr, ◌==◌,
}
use contract_kit.Prelude.Results.{Result, ok, ◌>>◌, fail_if}
use contract_kit.Prelude.Order.{list_ord, nat_ord, ◌===◌, ===_iff}
use contract_kit.Text.{Text, text, is_empty, contains, starts_with, split}
use contract_kit.Path.{
  CatalogPath, FileCatalogError, invalid_path, is_bad_component, any_bad, validate, new,
}

-- A part of a path that names something: not empty, not the directory itself or its parent.
abbrev pub IsName : Text → Type 0
IsName part = is_empty part ≡ false × part ≢ text "." × part ≢ text ".."

-- The character does not occur.
abbrev pub Without : ℕ → Text → Type 0
Without c value = All (λ d. d ≢ c) value

unequal : (a b : Text) → ((a === b) ≡ false) ↔ (a ≢ b)
unequal a b =
    let same = ===_iff a b in
    (
      λ h e. absurd (ground (arith, h, same.1 e)),
      λ h. elim (Bool-cases (a === b)) [ inl e ↦ absurd (h (same.0 e)) | inr e ↦ e ],
    )

or_false : (a b : Bool) → ((a || b) ≡ false) ↔ (a ≡ false × b ≡ false)
or_false a b = ground arith

is_bad_component-IsName : (part : Text) → (is_bad_component part ≡ false) ↔ IsName part
unfolding is_bad_component
is_bad_component-IsName part =
    let dot = unequal part (text ".") in
    let up = unequal part (text "..") in
    let first = or_false (is_empty part || part === text ".") (part === text "..") in
    let second = or_false (is_empty part) (part === text ".") in
    (
      λ h. let (a, b) = first.0 h in let (c, d) = second.0 a in (c, dot.0 d, up.0 b),
      λ h. first.1 (second.1 (h.0, dot.1 h.1), up.1 h.2),
    )

any_bad-All : (parts : List Text) → (any_bad parts ≡ false) ↔ All IsName parts
unfolding any_bad
any_bad-All [] = (λ h. tt, λ h. refl)
any_bad-All (part ∷ parts) =
    let either = or_false (is_bad_component part) (any_bad parts) in
    let here = is_bad_component-IsName part in
    let rest = any_bad-All parts in
    (λ h. let (a, b) = either.0 h in (here.0 a, rest.0 b), λ h. either.1 (here.1 h.0, rest.1 h.1))

contains-Without : (c : ℕ) (value : Text) → (contains c value ≡ false) ↔ Without c value
unfolding contains
contains-Without c [] = (λ h. tt, λ h. refl)
contains-Without c (d ∷ ds) =
    let either = or_false (d == c) (contains c ds) in
    let rest = contains-Without c ds in
    (
      λ h. let (a, b) = either.0 h in ((λ e. ground (arith, a, e)), rest.0 b),
      λ h. let differ : d ≢ c = h.0 in either.1 (ground (arith, differ), rest.1 h.1),
    )

-- The two early returns, on their six tests.
abbrev guarded :
    Bool → Bool → Bool → Bool → Bool → Bool → Text → Result FileCatalogError CatalogPath
guarded a b c d e f value = do
  (fail_if (a || b || c || d || e) (invalid_path value) >> fail_if f (invalid_path value))
  ok (record { value = value })

guarded_iff :
    (a b c d e f : Bool) (value : Text)
    → (guarded a b c d e f value ≡ ok (record { value = value }))
      ↔ (a ≡ false × b ≡ false × c ≡ false × d ≡ false × e ≡ false × f ≡ false)
guarded_iff a b c d e f value = ground arith

-- A text is accepted as a catalog path, unchanged, exactly when it is not empty, does not start
-- with a slash, has no backslash, colon or NUL, and each part between its slashes is a name: not
-- empty, not `.` and not `..`.
pub new-IsName :
    (value : Text)
    → (new value ≡ ok (record { value = value })) ↔ (
        is_empty value ≡ false
        × starts_with b'/' value ≡ false
        × Without b'\\' value
        × Without b':' value
        × Without 0 value
        × All IsName (split b'/' value))
unfolding new validate
new-IsName value =
    let tests =
      guarded_iff (is_empty value) (starts_with b'/' value) (contains b'\\' value)
        (contains b':' value) (contains 0 value) (any_bad (split b'/' value)) value in
    let backslash = contains-Without b'\\' value in
    let colon = contains-Without b':' value in
    let nul = contains-Without 0 value in
    let parts = any_bad-All (split b'/' value) in
    (
      λ h. let t = tests.0 h in (t.0, t.1, backslash.0 t.2, colon.0 t.3, nul.0 t.4, parts.0 t.5),
      λ h. tests.1 (h.0, h.1, backslash.1 h.2, colon.1 h.3, nul.1 h.4, parts.1 h.5),
    )
