-- ===== src/Base/Lists.antt =====
-- Lists by the native numbers, and results that are a value or an error.
use Prim.Native.Nat.{ℕ, zero, suc, ◌+◌}
use mathlib.Core.Path.{◌≡◌, refl}
use mathlib.Core.Logic.{◌⊎◌, inl, inr}
use mathlib.Core.Bool.{Bool, true, false}
use mathlib.Core.Option.{Option, none, some}
use mathlib.Core.List.{List, [], ◌∷◌, ◌++◌}
use native.Mathlib.Omega.{arith}

abbrev pub length {ℓ} : {A : Type ℓ} → List A → ℕ
length [] = 0
length (x ∷ xs) = suc (length xs)

pub length-append {ℓ} : {A : Type ℓ} (xs ys : List A) → length (xs ++ ys) ≡ length xs + length ys
length-append [] ys = omega arith
length-append (x ∷ xs) ys = omega (arith, length-append xs ys)

-- Every element satisfies the predicate.
abbrev pub All {ℓ κ} : {A : Type ℓ} → (A → Type κ) → List A → Type κ
All P [] = Unit
All P (x ∷ xs) = P x × All P xs

-- Element `i`, and `d` past the end.
abbrev pub get_or {ℓ} : {A : Type ℓ} → A → List A → ℕ → A
get_or d [] i = d
get_or d (x ∷ xs) zero = x
get_or d (x ∷ xs) (suc i) = get_or d xs i

-- A fallible step: what went wrong, or the value.
pub data Outcome {ℓ κ} (E : Type ℓ) (V : Type κ) : Type (ℓ ⊔ κ) where
  err : E → Outcome E V
  ok : V → Outcome E V

infixl 5 ◌>>=◌ ◌>>◌
abbrev pub ◌>>=◌ {ℓ κ μ} :
    {E : Type ℓ} {V : Type κ} {W : Type μ} → Outcome E V → (V → Outcome E W) → Outcome E W
err why >>= next = err why
ok v >>= next = next v

abbrev pub ◌>>◌ {ℓ κ} : {E : Type ℓ} {W : Type κ} → Outcome E (Unit {0}) → Outcome E W → Outcome E W
step >> next = step >>= λ done. next

-- `if (failed) return why;`
abbrev pub refuse_if {ℓ} : {E : Type ℓ} → Bool → E → Outcome E (Unit {0})
refuse_if false why = ok tt
refuse_if true why = err why

abbrev pub ok_or {ℓ κ} : {E : Type ℓ} {V : Type κ} → Option V → E → Outcome E V
ok_or (some v) why = ok v
ok_or none why = err why

-- The outcome of a step, with its equation, and the two parts of a success.
pub Outcome-cases {ℓ κ} :
    {E : Type ℓ} {V : Type κ} (step : Outcome E V)
    → ((why : E) × (step ≡ err why)) ⊎ ((v : V) × (step ≡ ok v))
Outcome-cases (err why) = inl (why, refl)
Outcome-cases (ok v) = inr (v, refl)

pub bind-eq-ok {ℓ κ μ} :
    {E : Type ℓ} {V : Type κ} {W : Type μ} (step : Outcome E V) (next : V → Outcome E W) {w : W}
    → (step >>= next) ≡ ok w
    → (v : V) × (next v ≡ ok w) × (step ≡ ok v)
bind-eq-ok (err why) next e = cc
bind-eq-ok (ok v) next e = (v, e, refl)

pub ok_or-eq-ok {ℓ κ} :
    {E : Type ℓ} {V : Type κ} (found : Option V) (why : E) {v : V}
    → ok_or found why ≡ ok v
    → found ≡ some v
ok_or-eq-ok (some v) why e = cc
ok_or-eq-ok none why e = cc

-- The rest of a success ran where nothing was refused.
pub refuse_if-eq-ok {ℓ κ} :
    {E : Type ℓ} {W : Type κ} (failed : Bool) (why : E) (next : Outcome E W) {w : W}
    → (refuse_if failed why >> next) ≡ ok w
    → (failed ≡ false) × (next ≡ ok w)
refuse_if-eq-ok false why next e = (refl, e)
refuse_if-eq-ok true why next e = cc
