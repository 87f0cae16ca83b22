-- ===== src/Loader/Phases.antt =====
-- Stretches of a run in which one party acts alone, and how each party gets from one exchange to the
-- next.
use kados_ng.Loader.Process.{Process, receive, Party, act}
use kados_ng.Loader.Process.{step, deliver, System, device_side, client_side, advance, by}
use kados_ng.Loader.Process.{Steps, here, next}
use kados_ng.Base.{ℕ, suc, ◌≡◌, refl, ap, arith}
use kados_ng.Base.{List, [], ◌∷◌, ◌++◌, some, length, take, drop, append_assoc}
use kados_ng.Base.{append-nil, length-append}

-- The party acts without input from outside, and sends these bytes.
pub data Acts : Party → Party → List ℕ → Type 0 where
  rest : {p r : Party} → p ≡ r → Acts p r []
  before :
      {p q r : Party} {sent bs : List ℕ}
      → step p ≡ some (q, sent)
      → Acts q r bs
      → Acts p r (sent ++ bs)

deliver-deliver : (xs ys : List ℕ) (p : Party) → deliver ys (deliver xs p) ≡ deliver (xs ++ ys) p
unfolding deliver
deliver-deliver xs ys p = ap (λ b. record p { inbox = b }) (append_assoc p.inbox xs ys)

deliver-nil : (p : Party) → deliver [] p ≡ p
unfolding deliver
deliver-nil p = ap (λ b. record p { inbox = b }) (append-nil p.inbox)

pub Acts-step : {p q : Party} {sent : List ℕ} → step p ≡ some (q, sent) → Acts p q sent
Acts-step {p} {q} {sent} e =
    let a : Acts p q (sent ++ []) = before e (rest refl) in rw (append-nil sent) at a

pub Acts-append : {p q r : Party} {xs ys : List ℕ} → Acts p q xs → Acts q r ys → Acts p r (xs ++ ys)
Acts-append (rest e) b = rw e b
Acts-append {ys} (before {sent} {bs} e a) b =
    rw (append_assoc sent bs ys) (before e (Acts-append a b))

pub Steps-append : {m n : ℕ} {s t u : System} → Steps m s t → Steps n t u → (k : ℕ) × Steps k s u
Steps-append {n = n} here r = (n, r)
Steps-append (next a as') r = let (k, r') = Steps-append as' r in (suc k, next a r')

abbrev pub system : Party → Party → System
system d c = record { device = d; client = c }

pub Acts-device :
    {d d' : Party} {sent : List ℕ} (c : Party)
    → Acts d d' sent
    → (n : ℕ) × Steps n (system d c) (system d' (deliver sent c))
unfolding advance
Acts-device c (rest e) = (0, rw (e, deliver-nil) here)
Acts-device {d} {d'} c (before {q} {sent} {bs} e a) =
    let (n, run) = Acts-device (deliver sent c) a in
    (
      suc n,
      next {t = system q (deliver sent c)} (by device_side (rw e refl))
          (rw (← deliver-deliver sent bs c) run),
    )

pub Acts-client :
    {c c' : Party} {sent : List ℕ} (d : Party)
    → Acts c c' sent
    → (n : ℕ) × Steps n (system d c) (system (deliver sent d) c')
unfolding advance
Acts-client d (rest e) = (0, rw (e, deliver-nil) here)
Acts-client {c} {c'} d (before {q} {sent} {bs} e a) =
    let (n, run) = Acts-client (deliver sent d) a in
    (
      suc n,
      next {t = system (deliver sent d) q} (by client_side (rw e refl))
          (rw (← deliver-deliver sent bs d) run),
    )

abbrev pub party : Process → List ℕ → (ℕ → ℕ) → (ℕ → ℕ) → Party
party k bs m r = record { process = k; inbox = bs; memory = m; registers = r }

take-length : (xs ys : List ℕ) → take (length xs) (xs ++ ys) ≡ xs
take-length [] ys = refl
take-length (x ∷ xs) ys = ap (λ t. x ∷ t) (take-length xs ys)

drop-length : (xs ys : List ℕ) → drop (length xs) (xs ++ ys) ≡ ys
drop-length [] ys = refl
drop-length (x ∷ xs) ys = drop-length xs ys

-- A read of as many bytes as the first part of the inbox has takes that part.
pub receive-step :
    (k : List ℕ → Process) (xs ys : List ℕ) (m r : ℕ → ℕ)
    → step (party (receive (length xs) k) (xs ++ ys) m r) ≡ some (party (k xs) ys m r, [])
unfolding step act
receive-step k xs ys m r = ground (arith, length-append xs ys, take-length xs ys, drop-length xs ys)

pub Acts-receive :
    {p : Party} (k : List ℕ → Process) (xs : List ℕ) {ys bs : List ℕ} {m r : ℕ → ℕ}
    → Acts (party (k xs) ys m r) p bs
    → Acts (party (receive (length xs) k) (xs ++ ys) m r) p bs
Acts-receive k xs {ys} {m = m} {r = r} a = before (receive-step k xs ys m r) a
