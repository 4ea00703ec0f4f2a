-- ===== src/Prelude/Action.antt =====
-- C code with state: an action takes the state and returns a value with the new state. It may
-- also fault (undefined behaviour: a read, write or call that C leaves undefined), or run out of
-- the rounds that the model grants a loop.
use mathlib.Core.Option.{Option, none, some}

pub data Outcome (A : Type 0) : Type 0 where
  done : A → Outcome A
  fault : Outcome A
  hang : Outcome A

abbrev pub Action : Type 0 → Type 0 → Type 0
Action S A = S → Outcome (A × S)

abbrev pub pure : {S A : Type 0} → A → Action S A
pure a s = done (a, s)

abbrev pub stop : {S A : Type 0} → Action S A
stop s = fault

-- A loop that has used up the rounds granted to it.
abbrev pub out_of_rounds : {S A : Type 0} → Action S A
out_of_rounds s = hang

infixl 5 ◌>>=◌ ◌>>◌
abbrev pub ◌>>=◌ : {S A B : Type 0} → Action S A → (A → Action S B) → Action S B
◌>>=◌ m f s = elim (m s) [ done (a, s') ↦ f a s' | fault ↦ fault | hang ↦ hang ]

abbrev pub ◌>>◌ : {S A B : Type 0} → Action S A → Action S B → Action S B
m >> k = m >>= λ _. k

abbrev pub gets : {S A : Type 0} → (S → A) → Action S A
gets f s = done (f s, s)

abbrev pub modify : {S : Type 0} → (S → S) → Action S (Unit {0})
modify f s = done (tt, f s)

-- A pointer that is null, or an index out of range, faults.
abbrev pub require : {S A : Type 0} → Option A → Action S A
require none s = fault
require (some a) s = done (a, s)
