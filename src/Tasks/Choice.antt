-- ===== src/Tasks/Choice.antt =====
-- The context that `switch` chooses.
use mathlib.Core.Path.{subst}
use kados_ng.Base.{ℕ, ◌≡◌, inl, inr, refl, arith, ap, ◌∙◌}
use kados_ng.Base.{
  Bool, true, false, not, ◌&&◌, ◌||◌, Bool-cases, Option, none, some, List, [], ◌∷◌, ◌++◌, ltb,
  ◌==◌, if◌then◌else◌, All, ==_refl, ==_of_ne, ==_iff, ℕ-cases,
}
use kados_ng.Tasks.Switch.{
  Context, Cpu, Run, done, spins, SwitchResult, switched, all_idle, contains, above, below, others,
  eligible, scan, switch, switch_contexts, switch_found, switch_prev, switch_idle,
}

-- The first context that is not the idle one and can run.
abbrev pub first_busy : (ℕ → Context) → ℕ → List ℕ → Option ℕ
first_busy context idle [] = none
first_busy context idle (x ∷ xs) =
    if not (x == idle) && eligible (context x) then some x else first_busy context idle xs

abbrev pub or_idle : Option ℕ → Bool → ℕ → Option ℕ
or_idle (some n) b idle = some n
or_idle none b idle = if b then some idle else none

-- What `switch` should choose from the other contexts, in their order: one that is not idle if any
-- can run, otherwise the idle one, if it is among them and can run.
abbrev pub choice : (ℕ → Context) → ℕ → List ℕ → Option ℕ
choice context idle xs =
    or_idle (first_busy context idle xs) (contains idle xs && eligible (context idle)) idle

or_false : (a b : Bool) → (a || b) ≡ false → (a ≡ false) × (b ≡ false)
or_false true b h = absurd (ground arith)
or_false false b h = (refl, h)

-- `scan` after the idle context was passed over.
scan_seen :
    (context : ℕ → Context) (held : List ℕ) (idle : ℕ) (xs : List ℕ)
    → contains idle xs ≡ false
    → contains idle held ≡ false
    → All (λ x. contains x held ≡ false) xs
    → scan context held idle (xs ++ idle ∷ []) false
      ≡ done (or_idle (first_busy context idle xs) (eligible (context idle)) idle)
unfolding scan
scan_seen context held idle [] d f u = elim (Bool-cases (eligible (context idle))) [
  | inl e ↦ rw (==_refl idle, f, e) refl
  | inr e ↦ rw (==_refl idle, f, e) refl
]
scan_seen context held idle (x ∷ xs) d f (u, us) = elim (Bool-cases (eligible (context x))) [
  | inl e ↦ rw ((or_false (x == idle) (contains idle xs) d).0, u, e) refl
  | inr e ↦
      rw ((or_false (x == idle) (contains idle xs) d).0, u, e)
        (scan_seen context held idle xs ((or_false (x == idle) (contains idle xs) d).1) f us)
]

abbrev pub Distinct : List ℕ → Type 0
Distinct [] = Unit
Distinct (x ∷ xs) = (contains x xs ≡ false) × Distinct xs

-- The loop with its `skip_idle` flag chooses as `choice` says.
pub scan-choice :
    (context : ℕ → Context) (held : List ℕ) (idle : ℕ) (xs : List ℕ)
    → Distinct xs
    → All (λ x. contains x held ≡ false) xs
    → scan context held idle (xs ++ idle ∷ []) true ≡ done (choice context idle xs)
unfolding scan
scan-choice context held idle [] d u = rw (==_refl idle) refl
scan-choice context held idle (x ∷ xs) (d, ds) (u, us) = elim (ℕ-cases x idle) [
  | inl e ↦ rw ((==_iff x idle).1 e) (
      scan_seen context held idle xs (subst (λ y. contains y xs ≡ false) e d)
        (subst (λ y. contains y held ≡ false) e u) us)
  | inr n ↦ elim (Bool-cases (eligible (context x))) [
    | inl e ↦ rw (==_of_ne x idle n, u, e) refl
    | inr e ↦ rw (==_of_ne x idle n, u, e) (scan-choice context held idle xs ds us)
  ]
]

contains-append :
    (x : ℕ) (xs ys : List ℕ) → contains x (xs ++ ys) ≡ (contains x xs || contains x ys)
contains-append x [] ys = refl
contains-append x (y ∷ xs) ys = elim (Bool-cases (y == x)) [
  | inl e ↦ rw e refl
  | inr e ↦ rw e (contains-append x xs ys)
]

contains-above : (x n : ℕ) (xs : List ℕ) → contains x (above n xs) ≡ (ltb n x && contains x xs)
contains-above x n [] = ground arith
contains-above x n (y ∷ xs) = step (contains-above x n xs)
  where
    step :
        contains x (above n xs) ≡ (ltb n x && contains x xs)
        → contains x (above n (y ∷ xs)) ≡ (ltb n x && contains x (y ∷ xs))
    step ih = ground arith

contains-below : (x n : ℕ) (xs : List ℕ) → contains x (below n xs) ≡ (ltb x n && contains x xs)
contains-below x n [] = ground arith
contains-below x n (y ∷ xs) = step (contains-below x n xs)
  where
    step :
        contains x (below n xs) ≡ (ltb x n && contains x xs)
        → contains x (below n (y ∷ xs)) ≡ (ltb x n && contains x (y ∷ xs))
    step ih = ground arith

above-Distinct : (n : ℕ) (xs : List ℕ) → Distinct xs → Distinct (above n xs)
above-Distinct n [] d = tt
above-Distinct n (x ∷ xs) (d, ds) = elim (Bool-cases (ltb n x)) [
  | inl e ↦ rw e (ground (arith, contains-above x n xs, d), above-Distinct n xs ds)
  | inr e ↦ rw e (above-Distinct n xs ds)
]

below-Distinct : (n : ℕ) (xs : List ℕ) → Distinct xs → Distinct (below n xs)
below-Distinct n [] d = tt
below-Distinct n (x ∷ xs) (d, ds) = elim (Bool-cases (ltb x n)) [
  | inl e ↦ rw e (ground (arith, contains-below x n xs, d), below-Distinct n xs ds)
  | inr e ↦ rw e (below-Distinct n xs ds)
]

append-Distinct :
    (xs ys : List ℕ)
    → Distinct xs
    → Distinct ys
    → ((x : ℕ) → contains x xs ≡ true → contains x ys ≡ false)
    → Distinct (xs ++ ys)
append-Distinct [] ys d e k = e
append-Distinct (x ∷ xs) ys (d, ds) e k = (
  rw (contains-append x xs ys, d) (k x (rw (==_refl x) refl)),
  append-Distinct xs ys ds e (λ y h. k y (ground arith)),
)

others-Distinct : (n : ℕ) (xs : List ℕ) → Distinct xs → Distinct (others n xs)
others-Distinct n xs d =
    append-Distinct (above n xs) (below n xs) (above-Distinct n xs d) (below-Distinct n xs d) apart
  where
    apart : (x : ℕ) → contains x (above n xs) ≡ true → contains x (below n xs) ≡ false
    apart x h = ground (arith, contains-above x n xs, contains-below x n xs)

-- The rotation holds every context but the current one.
pub contains-others :
    (x n : ℕ) (xs : List ℕ) → contains x (others n xs) ≡ (not (x == n) && contains x xs)
contains-others x n xs =
    rw (contains-append x (above n xs) (below n xs))
      (ground (arith, contains-above x n xs, contains-below x n xs))

-- On a CPU that holds no lock, with a current and an idle context.
pub record IsReady (s : Cpu) (prev idle : ℕ) : Type 0 where
  pub unlocked : s.switch_lock ≡ false
  pub no_guard : s.held ≡ []
  pub is_current : s.current_context ≡ some prev
  pub is_idle : s.idle_context ≡ some idle
  pub distinct : Distinct s.contexts

others_free :
    (prev : ℕ) (xs : List ℕ)
    → contains prev xs ≡ false
    → All (λ x. contains x (prev ∷ []) ≡ false) xs
others_free prev [] h = tt
others_free prev (x ∷ xs) h = (ground arith, others_free prev xs (ground arith))

-- The result of `switch` for the context that is chosen.
abbrev pub chosen : ℕ → Option ℕ → Cpu → SwitchResult × Cpu
chosen prev none s = (all_idle, record s { held = []; switch_lock = false })
chosen prev (some next) s =
    (switched, switch_contexts prev next (record s { held = prev ∷ []; switch_lock = true }))

pub switch-choice :
    (s : Cpu) (prev idle : ℕ)
    → IsReady s prev idle
    → switch s ≡ done (chosen prev (choice s.context idle (others prev s.contexts)) s)
unfolding switch
switch-choice s prev idle r =
    ap tested r.unlocked
    ∙ ap with_prev r.is_current
    ∙ ap with_held r.no_guard
    ∙ ap with_idle r.is_idle
    ∙ ap with_found search_choice
    ∙ ends (choice s.context idle (others prev s.contexts))
  where
    taken : Cpu
    taken = record s { held = prev ∷ []; switch_lock = true }

    tested : Bool → Run (SwitchResult × Cpu)
    tested b = if b then spins else switch_prev s.current_context (record s { switch_lock = true })

    with_prev : Option ℕ → Run (SwitchResult × Cpu)
    with_prev o = switch_prev o (record s { switch_lock = true })

    with_held : List ℕ → Run (SwitchResult × Cpu)
    with_held l =
        if contains prev l
        then spins
        else switch_idle prev s.idle_context (record s { held = prev ∷ l; switch_lock = true })

    with_idle : Option ℕ → Run (SwitchResult × Cpu)
    with_idle o = switch_idle prev o taken

    with_found : Run (Option ℕ) → Run (SwitchResult × Cpu)
    with_found f = switch_found prev f taken

    search_choice :
        scan s.context (prev ∷ []) idle (others prev s.contexts ++ idle ∷ []) true
        ≡ done (choice s.context idle (others prev s.contexts))
    search_choice =
        scan-choice s.context (prev ∷ []) idle (others prev s.contexts)
          (others-Distinct prev s.contexts r.distinct)
          (others_free prev (others prev s.contexts)
            (rw (contains-others prev prev s.contexts, ==_refl prev) refl))

    ends : (o : Option ℕ) → switch_found prev (done o) taken ≡ done (chosen prev o s)
    ends none = rw (==_refl prev) refl
    ends (some n) = refl
