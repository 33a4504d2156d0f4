-- ===== src/Prelude/Run.antt =====
-- How a piece of C code ends, and the monad that threads the state through it.
use mathlib.Core.Option.{Option, none, some}
use mathlib.Core.Path.{◌≡◌, refl}
use mathlib.Core.Bool.{Bool, true, false}
use tiny_kernels.Prelude.Tests.{if◌then◌else◌}

-- `halted`: the code called `Halt`. `fault`: undefined behaviour, such as an access through a null
-- or freed pointer or past the end of an array. `out_of_fuel`: a loop used up its fuel.
pub data Run (S A : Type 0) : Type 0 where
  ok : A → S → Run S A
  halted : Run S A
  fault : Run S A
  out_of_fuel : Run S A

abbrev pub Cmd : Type 0 → Type 0 → Type 0
Cmd S A = S → Run S A

module _ {S A : Type 0} where
  abbrev pub pure : A → Cmd S A
  pure = ok

  abbrev pub halt : Cmd S A
  halt s = halted

  abbrev pub undefined : Cmd S A
  undefined s = fault

  abbrev pub stuck : Cmd S A
  stuck s = out_of_fuel

module _ {S : Type 0} where
  abbrev pub get : Cmd S S
  get s = ok s s

  abbrev pub put : S → Cmd S (Unit {0})
  put t s = ok tt t

  -- A read that faults where there is nothing to read.
  abbrev pub or_fault : {A : Type 0} → Option A → Cmd S A
  or_fault none s = fault
  or_fault (some a) s = ok a s

module _ {S A B : Type 0} where
  abbrev pub and_then : Run S A → (A → Cmd S B) → Run S B
  and_then (ok a s) k = k a s
  and_then halted k = halted
  and_then fault k = fault
  and_then out_of_fuel k = out_of_fuel

  infixl 5 ◌>>=◌ ◌>>◌
  abbrev pub ◌>>=◌ : Cmd S A → (A → Cmd S B) → Cmd S B
  m >>= k = λ s. and_then (m s) k

  abbrev pub ◌>>◌ : Cmd S A → Cmd S B → Cmd S B
  m >> n = m >>= λ _. n

-- Total correctness: the code returns, and `P` holds of the result and the final state.
abbrev pub Returns : {S A : Type 0} → (A → S → Type 0) → Run S A → Type 0
Returns P (ok a s) = P a s
Returns P halted = ⊥
Returns P fault = ⊥
Returns P out_of_fuel = ⊥

pub bind :
    {S A B : Type 0} (P : A → S → Type 0) (Q : B → S → Type 0) (r : Run S A) (k : A → Cmd S B)
    → Returns P r
    → ((a : A) (s : S) → P a s → Returns Q (k a s))
    → Returns Q (and_then r k)
bind P Q (ok a s) k h next = next a s h
bind P Q halted k h next = absurd h
bind P Q fault k h next = absurd h
bind P Q out_of_fuel k h next = absurd h

pub mono :
    {S A : Type 0} (P Q : A → S → Type 0) (r : Run S A)
    → Returns P r
    → ((a : A) (s : S) → P a s → Q a s)
    → Returns Q r
mono P Q (ok a s) h weaken = weaken a s h
mono P Q halted h weaken = absurd h
mono P Q fault h weaken = absurd h
mono P Q out_of_fuel h weaken = absurd h

pub outcome :
    {S A : Type 0} (P : A → S → Type 0) (r : Run S A)
    → Returns P r
    → (a : A) × (s : S) × (r ≡ ok a s) × P a s
outcome P (ok a s) h = (a, s, refl, h)
outcome P halted h = absurd h
outcome P fault h = absurd h
outcome P out_of_fuel h = absurd h

-- A test that fails, at the front of a run.
pub choose_else :
    {S A : Type 0} (b : Bool) (x y : Cmd S A) (s : S) → b ≡ false → (if b then x else y) s ≡ y s
choose_else true x y s h = absurd cc
choose_else false x y s h = refl
