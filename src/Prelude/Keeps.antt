-- ===== src/Prelude/Keeps.antt =====
-- What an action guarantees from a state with `P`: it returns, in a state with `P` that stands in
-- the relation `R` to the first. `F` says what is known if it faults: `⊥` where it cannot.
use qwnet_library.Prelude.{◌≡◌, refl, Bool, true, false, if◌then◌else◌}
use qwnet_library.Prelude.Action.{Outcome, done, fault, hang, Action, pure, ◌>>=◌, gets, modify}

abbrev pub Post :
    {S A : Type 0} → Type 0 → (S → Type 0) → (S → S → Type 0) → S → Outcome (A × S) → Type 0
Post F P R s (done (a, s')) = P s' × R s s'
Post F P R s fault = F
Post F P R s hang = ⊥

pub record Keeps {S A : Type 0} (F : Type 0) (P : S → Type 0) (R : S → S → Type 0) (m : Action S A)
    : Type 0 where
  pub at : (s : S) → P s → Post F P R s (m s)

-- `R` holds along any sequence of actions.
pub record IsPreorder {S : Type 0} (R : S → S → Type 0) : Type 0 where
  pub rfl : (s : S) → R s s
  pub trans : (s t u : S) → R s t → R t u → R s u

pub Post-then :
    {S B : Type 0} (F : Type 0) (P : S → Type 0) (R : S → S → Type 0) (s t : S)
    (r : Outcome (B × S))
    → IsPreorder R
    → R s t
    → Post F P R t r
    → Post F P R s r
Post-then F P R s t (done (b, u)) o h g = (g.0, o.trans s t u h g.1)
Post-then F P R s t fault o h g = g
Post-then F P R s t hang o h g = g

module _ {S : Type 0} {F : Type 0} {P : S → Type 0} {R : S → S → Type 0} where
  pub Keeps-pure : {A : Type 0} (a : A) → IsPreorder R → Keeps F P R (pure a)
  Keeps-pure a o = record { at = λ s h. (h, o.rfl s) }

  pub Keeps-gets : {A : Type 0} (f : S → A) → IsPreorder R → Keeps F P R (gets f)
  Keeps-gets f o = record { at = λ s h. (h, o.rfl s) }

  pub Keeps-if :
      {A : Type 0} (b : Bool) (m n : Action S A)
      → Keeps F P R m
      → Keeps F P R n
      → Keeps F P R (if b then m else n)
  Keeps-if true m n km kn = km
  Keeps-if false m n km kn = kn

  -- From what `m` did to what the rest does, seen from the first state.
  Post-bind :
      {A B : Type 0} (s : S) (o : Outcome (A × S)) (f : A → Action S B)
      → IsPreorder R
      → Post F P R s o
      → ((a : A) → Keeps F P R (f a))
      → Post F P R s (◌>>=◌ (λ (t : S). o) f s)
  Post-bind s (done (a, t)) f o h k = Post-then F P R s t (f a t) o h.1 ((k a).at t h.0)
  Post-bind s fault f o h k = h
  Post-bind s hang f o h k = h

  pub Keeps-bind :
      {A B : Type 0} (m : Action S A) (f : A → Action S B)
      → IsPreorder R
      → Keeps F P R m
      → ((a : A) → Keeps F P R (f a))
      → Keeps F P R (m >>= f)
  Keeps-bind m f o km kf = record { at = λ s h. Post-bind s (m s) f o (km.at s h) kf }

  pub Keeps-modify : (f : S → S) → ((s : S) → P s → P (f s) × R s (f s)) → Keeps F P R (modify f)
  Keeps-modify f h = record { at = h }

-- The value and the state that an action returns, where it cannot fault.
pub record Returns {S A : Type 0} (P : S → Type 0) (R : S → S → Type 0) (s : S)
    (o : Outcome (A × S)) : Type 0 where
  pub value : A
  pub after : S
  pub equation : o ≡ done (value, after)
  pub keeps : P after
  pub related : R s after

Post-Returns :
    {S A : Type 0} (P : S → Type 0) (R : S → S → Type 0) (s : S) (o : Outcome (A × S))
    → Post ⊥ P R s o
    → Returns P R s o
Post-Returns P R s (done (a, t)) h = record {
  value = a;
  after = t;
  equation = refl;
  keeps = h.0;
  related = h.1;
}
Post-Returns P R s fault h = absurd h
Post-Returns P R s hang h = absurd h

pub returns :
    {S A : Type 0} {P : S → Type 0} {R : S → S → Type 0} (m : Action S A)
    → Keeps ⊥ P R m
    → (s : S) → P s
    → Returns P R s (m s)
returns {P} {R} m k s h = Post-Returns P R s (m s) (k.at s h)

pub ruleset keeps_rules = (Keeps-pure, Keeps-gets, Keeps-if, Keeps-bind)

-- What follows an action that is done.
pub bind-done :
    {S A B : Type 0} (m : Action S A) (f : A → Action S B) (s s' : S) (a : A)
    → m s ≡ done (a, s')
    → (m >>= f) s ≡ f a s'
bind-done m f s s' a e = rw (◌>>=◌, e) refl
