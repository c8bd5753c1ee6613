-- ===== src/Run.antt =====
-- Commands of the kernel: each takes the state and ends in one of the ways that C code ends.
use fp_sisop20_b.Prelude.{String, ◌≡◌, ◌≢◌, sym, ap, ◌∙◌, Bool, true, false}

-- `panics` is a call of panic(); `spins` waits for another CPU; `faults` is an access outside an
-- array; `exhausted` means that a loop of the model has used up its fuel.
pub data Run (S A : Type 0) : Type 0 where
  ok : A → S → Run S A
  panics : String → Run S A
  spins : Run S A
  faults : Run S A
  exhausted : Run S A

abbrev pub Cmd : Type 0 → Type 0 → Type 0
Cmd S A = S → Run S A

abbrev pub pure : {S A : Type 0} → A → Cmd S A
pure = ok

abbrev pub panic : {S A : Type 0} → String → Cmd S A
panic m s = panics m

module _ {S A B : Type 0} where
  abbrev pub and_then : Run S A → (A → Cmd S B) → Run S B
  and_then (ok a s) k = k a s
  and_then (panics m) k = panics m
  and_then spins k = spins
  and_then faults k = faults
  and_then exhausted k = exhausted

  infixl 5 ◌>>=◌ ◌>>◌
  abbrev pub ◌>>=◌ : Cmd S A → (A → Cmd S B) → Cmd S B
  m >>= k = λ s. and_then (m s) k

  abbrev pub ◌>>◌ : Cmd S A → Cmd S B → Cmd S B
  m >> n = m >>= λ _. n

abbrev pub get : {S A : Type 0} → (S → A) → Cmd S A
get f s = ok (f s) s

abbrev pub modify : {S : Type 0} → (S → S) → Cmd S (Unit {0})
modify f s = ok tt (f s)

-- `if (test) panic(message);`
abbrev pub panic_if : {S : Type 0} → Bool → String → Cmd S (Unit {0})
panic_if true message s = panics message
panic_if false message s = ok tt s

-- A command on a part of the state.
abbrev pub lift_run : {S T A : Type 0} → (T → S) → Run T A → Run S A
lift_run put (ok a t) = ok a (put t)
lift_run put (panics m) = panics m
lift_run put spins = spins
lift_run put faults = faults
lift_run put exhausted = exhausted

-- The result of a run that ends well.
abbrev pub state_of : {S A : Type 0} → S → Run S A → S
state_of d (ok a s) = s
state_of d (panics m) = d
state_of d spins = d
state_of d faults = d
state_of d exhausted = d

abbrev pub value_of : {S A : Type 0} → A → Run S A → A
value_of d (ok a s) = a
value_of d (panics m) = d
value_of d spins = d
value_of d faults = d
value_of d exhausted = d

-- A call has one outcome.
pub one_state : {S A : Type 0} {r : Run S A} {a b : A} {s t : S} → r ≡ ok a s → r ≡ ok b t → s ≡ t
one_state {s} e e' = ap (state_of s) (sym e ∙ e')

pub one_value : {S A : Type 0} {r : Run S A} {a b : A} {s t : S} → r ≡ ok a s → r ≡ ok b t → a ≡ b
one_value {a} e e' = ap (value_of a) (sym e ∙ e')

-- The ends of a call differ.
pub no_fault : {S A : Type 0} {a : A} {s : S} → faults ≢ ok a s
no_fault e = cc

pub no_panic : {S A : Type 0} {m : String} {a : A} {s : S} → panics m ≢ ok a s
no_panic e = cc
