-- ===== src/Base/Switch.antt =====
-- `switch` statements: the case whose label is the value, else the default.
use Prim.Native.Nat.{ℕ, zero, suc}
use mathlib.Core.Bool.{Bool, true, false}
use mathlib.Core.List.{List, [], ◌∷◌, ◌++◌}
use pugputer6309_emulator.Base.Tests.{◌==◌, if◌then◌else◌}

module _ {ℓ} {A : Type ℓ} where
  unfoldable pub switch : ℕ → List (ℕ × A) → A → A
  switch n [] default = default
  switch n ((label, body) ∷ cases) default = if n == label then body else switch n cases default

  -- Entry `i` of a constant table.
  unfoldable pub table_at : List A → ℕ → A → A
  table_at [] i d = d
  table_at (x ∷ xs) zero d = x
  table_at (x ∷ xs) (suc i) d = table_at xs i d

pub if_both {ℓ κ} :
    {A : Type ℓ} (P : A → Type κ) (b : Bool) {x y : A} → P x → P y → P (if b then x else y)
if_both P true px py = px
if_both P false px py = py

module _ {ℓ κ} {A : Type ℓ} (P : A → Type κ) where
  -- Every body of a list of cases has the property.
  pub data AllCases : List (ℕ × A) → Type (ℓ ⊔ κ) where
    nil : AllCases []
    cons :
        {n : ℕ} {body : A} {cases : List (ℕ × A)}
        → P body
        → AllCases cases
        → AllCases ((n, body) ∷ cases)

module _ {ℓ κ} {A : Type ℓ} {P : A → Type κ} where
  pub AllCases-append :
      {xs ys : List (ℕ × A)} → AllCases P xs → AllCases P ys → AllCases P (xs ++ ys)
  AllCases-append nil q = q
  AllCases-append (cons p ps) q = cons p (AllCases-append ps q)

  pub AllCases-switch :
      (n : ℕ) {cases : List (ℕ × A)} {default : A}
      → AllCases P cases
      → P default
      → P (switch n cases default)
  unfolding switch
  AllCases-switch n nil d = d
  AllCases-switch n (cons {n = label} {body} {cases} p ps) d =
      if_both P (n == label) p (AllCases-switch n ps d)

-- Every entry of a table has the property.
abbrev pub AllEntries {ℓ κ} : {A : Type ℓ} → (A → Type κ) → List A → Type κ
AllEntries P [] = Unit
AllEntries P (x ∷ xs) = P x × AllEntries P xs

pub AllEntries-table_at {ℓ κ} :
    {A : Type ℓ} (P : A → Type κ) (xs : List A) (i : ℕ) (d : A)
    → AllEntries P xs
    → P d
    → P (table_at xs i d)
unfolding table_at
AllEntries-table_at P [] i d h p = p
AllEntries-table_at P (x ∷ xs) zero d h p = h.0
AllEntries-table_at P (x ∷ xs) (suc i) d h p = AllEntries-table_at P xs i d h.1 p
