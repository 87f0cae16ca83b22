-- ===== src/Loader/Schedule.antt =====
-- The parties of a system act independently of one another: whatever the order in which they act, a
-- run that can end ends there after the same number of steps.
use mathlib.Core.WellFounded.{Acc}
use kados_ng.Loader.Process.{Process, send, receive, store, read32, write32, halt, Party, act, step}
use kados_ng.Loader.Process.{deliver, System, device_side, client_side, advance, Step, by}
use kados_ng.Loader.Process.{Steps, here, next, IsFinal, after_device, after_client}
use kados_ng.Base.{ℕ, zero, suc, ◌+◌, ◌≤◌, ◌≡◌, refl, ap, ◌⊎◌, inl, inr, arith}
use kados_ng.Base.{List, [], ◌∷◌, ◌++◌, Option, none, some, length, take, drop}
use kados_ng.Base.{length-append}

take_append {ℓ} :
    {A : Type ℓ} (n : ℕ) (xs ys : List A) → n ≤ length xs → take n (xs ++ ys) ≡ take n xs
take_append zero xs ys h = refl
take_append (suc n) [] ys h = absurd (omega arith)
take_append (suc n) (x ∷ xs) ys h = ap (λ t. x ∷ t) (take_append n xs ys (omega arith))

drop_append {ℓ} :
    {A : Type ℓ} (n : ℕ) (xs ys : List A) → n ≤ length xs → drop n (xs ++ ys) ≡ drop n xs ++ ys
drop_append zero xs ys h = refl
drop_append (suc n) [] ys h = absurd (omega arith)
drop_append (suc n) (x ∷ xs) ys h = drop_append n xs ys (omega arith)

-- More bytes in the inbox change nothing about an action that was possible without them.
act-deliver :
    (k : Process) (p q : Party) (sent bs : List ℕ)
    → act k p ≡ some (q, sent)
    → act k (deliver bs p) ≡ some (deliver bs q, sent)
unfolding act deliver
act-deliver (send out k) p q sent bs h = cc
act-deliver (receive n k) p q sent bs h =
    ground (arith, length-append p.inbox bs, take_append n p.inbox bs, drop_append n p.inbox bs)
act-deliver (store a v k) p q sent bs h = cc
act-deliver (read32 a k) p q sent bs h = cc
act-deliver (write32 a v k) p q sent bs h = cc
act-deliver (halt e) p q sent bs h = cc

step-deliver :
    (p q : Party) (sent bs : List ℕ)
    → step p ≡ some (q, sent)
    → step (deliver bs p) ≡ some (deliver bs q, sent)
unfolding step deliver
step-deliver p q sent bs h = act-deliver p.process p q sent bs h

-- What a step of one side says about its party.
device_acts :
    (c : Party) (o : Option (Party × List ℕ)) {t : System}
    → after_device c o ≡ some t
    → (d : Party) × (sent : List ℕ) × (o ≡ some (d, sent))
      × (record { device = d; client = deliver sent c } ≡ t)
device_acts c none h = cc
device_acts c (some (d, sent)) h = (d, sent, refl, cc)

client_acts :
    (d : Party) (o : Option (Party × List ℕ)) {t : System}
    → after_client d o ≡ some t
    → (c : Party) × (sent : List ℕ) × (o ≡ some (c, sent))
      × (record { device = deliver sent d; client = c } ≡ t)
client_acts d none h = cc
client_acts d (some (c, sent)) h = (c, sent, refl, cc)

-- Steps of the two sides commute.
commute :
    (s t u : System)
    → advance device_side s ≡ some t
    → advance client_side s ≡ some u
    → (v : System) × (advance client_side t ≡ some v) × (advance device_side u ≡ some v)
unfolding advance
commute s t u h k =
    let (d, sent, dh, dt) = device_acts s.client (step s.device) h in
    let (c, sent', ch, ct) = client_acts s.device (step s.client) k in
    (
      record { device = deliver sent' d; client = deliver sent c },
      rw (← dt) (ap (after_client d) (step-deliver s.client c sent' sent ch)),
      rw (← ct) (ap (after_device c) (step-deliver s.device d sent sent' dh)),
    )

-- Two steps from one system either lead to the same system or meet again after one more each.
diamond : {s t u : System} → Step s t → Step s u → (t ≡ u) ⊎ ((v : System) × Step t v × Step u v)
diamond (by device_side h) (by device_side k) = inl (cc)
diamond (by client_side h) (by client_side k) = inl (cc)
diamond {s} {t} {u} (by device_side h) (by client_side k) =
    let (v, p, q) = commute s t u h k in inr (v, by client_side p, by device_side q)
diamond {s} {t} {u} (by client_side h) (by device_side k) =
    let (v, p, q) = commute s u t k h in inr (v, by device_side q, by client_side p)

IsFinal-Step : {s t : System} → IsFinal s → Step s t → ⊥
IsFinal-Step f (by device_side h) = cc (f.device_stuck)
IsFinal-Step f (by client_side h) = cc (f.client_stuck)

-- A first step never leads away from a final system, and shortens the way to it by one.
catch_up :
    (n : ℕ) {s t f : System}
    → Steps n s f
    → IsFinal f
    → Step s t
    → (k : ℕ) × (n ≡ suc k) × Steps k t f
catch_up n here final st = absurd (IsFinal-Step final st)
catch_up (suc n) (next first rest) final st = elim (diamond first st) [
  | inl e ↦ (n, refl, rw (← e) rest)
  | inr (v, p, q) ↦ let (k, e, r) = catch_up n rest final p in (suc k, ap suc e, next q r)
]

-- So a run of any order is part of a run of the same length to the final system.
pub Steps-finish :
    (m n : ℕ) {s t f : System}
    → Steps m s t
    → Steps n s f
    → IsFinal f
    → (k : ℕ) × (m + k ≡ n) × Steps k t f
Steps-finish m n here whole final = (n, omega arith, whole)
Steps-finish (suc m) n (next first rest) whole final =
    let (k, e, whole') = catch_up n whole final first in
    let (j, e', left) = Steps-finish m k rest whole' final in (j, omega arith, left)

-- The step relation backwards, whose accessible systems are those with no infinite run.
abbrev pub After : System → System → Type 0
After t s = Step s t

-- No run from a system is infinite if one of them ends.
pub Acc_of_Steps : (n : ℕ) {s f : System} → Steps n s f → IsFinal f → Acc After s
Acc_of_Steps zero {s} here final = Acc.intro s (λ t st. absurd (IsFinal-Step final st))
Acc_of_Steps (suc n) {s} (next first others) final = Acc.intro s λ t st.
    let (k, e, left) = catch_up (suc n) (next first others) final st in
    let e' : k ≡ n = omega arith in Acc_of_Steps n (rw e' at left) final
