-- ===== src/Base/Act.antt =====
-- Steps on a state that may not end: a function of the state, and `none` is a run without an end.
use mathlib.Core.Path.{◌≡◌, refl}
use mathlib.Core.Option.{Option, none, some}

abbrev pub Act : Type 0 → Type 0 → Type 0
Act S A = S → Option (A × S)

infixl 5 ◌>>=◌ ◌>>◌
abbrev pub ◌>>=◌ : {S A B : Type 0} → Act S A → (A → Act S B) → Act S B
◌>>=◌ m f s = elim (m s) [ none ↦ none | some (a, s') ↦ f a s' ]

abbrev pub ◌>>◌ : {S A B : Type 0} → Act S A → Act S B → Act S B
m >> k = m >>= λ _. k

abbrev pub return : {S A : Type 0} → A → Act S A
return a s = some (a, s)

-- A loop whose rounds are used up.
abbrev pub stuck : {S A : Type 0} → Act S A
stuck s = none

-- A step that returns, and the steps behind it.
pub bind_run :
    {S A B : Type 0} (m : Act S A) (f : A → Act S B) (s : S) {a : A} {s' : S}
    → m s ≡ some (a, s')
    → (m >>= f) s ≡ f a s'
bind_run m f s e = rw (e, ◌>>=◌) refl

pub then_run :
    {S A B : Type 0} (m : Act S A) (n : Act S B) (s : S) {a : A} {s' : S}
    → m s ≡ some (a, s')
    → (m >> n) s ≡ n s'
then_run m n s e = rw (e, ◌>>◌, ◌>>=◌) refl
