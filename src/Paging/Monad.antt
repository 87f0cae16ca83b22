-- ===== src/Paging/Monad.antt =====
-- Computations over a state that can return an error or panic: the state is kept in each case.
use kados_ng.Base.{◌≡◌}
use kados_ng.Mem.Outcome.{Outcome, ok, err, panic, MemError}

abbrev pub M : Type 0 → Type 0 → Type 0
M S A = S → Outcome A × S

abbrev pub bind : {S A B : Type 0} → Outcome A × S → (A → M S B) → Outcome B × S
bind (ok a, s) f = f a s
bind (err e, s) f = (err e, s)
bind (panic, s) f = (panic, s)

infixl 5 ◌>>=◌ ◌>>◌
abbrev pub ◌>>=◌ : {S A B : Type 0} → M S A → (A → M S B) → M S B
◌>>=◌ m f s = bind (m s) f

abbrev pub ◌>>◌ : {S B : Type 0} → M S (Unit {0}) → M S B → M S B
m >> k = m >>= λ _. k

abbrev pub pure : {S A : Type 0} → A → M S A
pure a s = (ok a, s)

abbrev pub throw : {S A : Type 0} → MemError → M S A
throw e s = (err e, s)

-- `?` on a value that needs no state.
abbrev pub lift : {S A : Type 0} → Outcome A → M S A
lift o s = (o, s)

-- What holds of the result and the state, or of the error and the state; there is no panic.
abbrev pub Ensures :
    {S A : Type 0} → (A → S → Type 0) → (MemError → S → Type 0) → Outcome A × S → Type 0
Ensures P E (ok a, s) = P a s
Ensures P E (err e, s) = E e s
Ensures P E (panic, s) = ⊥

pub bind-Ensures :
    {S A B : Type 0} (P : A → S → Type 0) (Q : B → S → Type 0) (E : MemError → S → Type 0)
    (r : Outcome A × S) (f : A → M S B)
    → Ensures P E r
    → ((a : A) (s : S) → P a s → Ensures Q E (f a s))
    → Ensures Q E (bind r f)
bind-Ensures P Q E (ok a, s) f h k = k a s h
bind-Ensures P Q E (err e, s) f h k = h
bind-Ensures P Q E (panic, s) f h k = h

pub Ensures-map :
    {S A : Type 0} (P Q : A → S → Type 0) (E F : MemError → S → Type 0) (r : Outcome A × S)
    → Ensures P E r
    → ((a : A) (s : S) → P a s → Q a s)
    → ((e : MemError) (s : S) → E e s → F e s)
    → Ensures Q F r
Ensures-map P Q E F (ok a, s) h f g = f a s h
Ensures-map P Q E F (err e, s) h f g = g e s h
Ensures-map P Q E F (panic, s) h f g = h

-- A result that is known picks its half.
pub Ensures_ok :
    {S A : Type 0} (P : A → S → Type 0) (E : MemError → S → Type 0) (r : Outcome A × S) (a : A)
    (s : S)
    → r ≡ (ok a, s)
    → Ensures P E r
    → P a s
Ensures_ok P E r a s e h = rw e at h
