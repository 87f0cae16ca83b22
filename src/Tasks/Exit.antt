-- ===== src/Tasks/Exit.antt =====
-- `init`, `current`, `is_current`, `exit` and `exit_current` of task/context.rs.
use kados_ng.Base.{
  ℕ, ◌≡◌, ◌≢◌, refl, sym, ap, ◌∙◌, arith, Bool, true, false, not, ◌&&◌, Option, none, some, List,
  [], ◌∷◌, ◌==◌, ==_refl, ==_of_ne, if◌then◌else◌,
}
use kados_ng.Tasks.Switch.{
  Cpu, Context, Run, done, spins, panics, runnable, SwitchResult, switched, all_idle, contains,
  eligible, others, switch, update,
}
use mathlib.Core.Path.{subst}
use kados_ng.Tasks.Choice.{
  Distinct, IsReady, chosen, choice, or_idle, first_busy, contains-others, switch-choice,
}
use kados_ng.Tasks.Invariant.{IsChoice, IsBusy, choice-IsChoice}
use kados_ng.Tasks.Spawn.{insert}

-- Removal from the set of contexts.
abbrev pub remove : ℕ → List ℕ → List ℕ
remove n [] = []
remove n (x ∷ xs) = if x == n then xs else x ∷ remove n xs

-- `init`, with the address of the kernel's first context; the empty table is a frame that is
-- allocated for `switch_arch_hook`.
unfoldable pub init : ℕ → Cpu → Cpu
init cx s = record s {
  context = update s.context cx (record { status = runnable; running = true; addr_space = none });
  contexts = insert cx s.contexts;
  current_context = some cx;
  idle_context = some cx;
}

abbrev pub current : Cpu → Option ℕ
current s = s.current_context

unfoldable pub is_current : ℕ → Cpu → Bool
is_current cx s = elim (current s) [ none ↦ false | some cur ↦ cx == cur ]

-- A `switch` that returns to the context that exits is `unreachable!`.
abbrev pub never_returns : Run (SwitchResult × Cpu) → Run Cpu
never_returns (done (switched, s)) = done s
never_returns (done (all_idle, s)) = panics
never_returns spins = spins
never_returns panics = panics

unfoldable pub exit : ℕ → Cpu → Run Cpu
exit cx s = never_returns (switch (record s { contexts = remove cx s.contexts }))

abbrev pub exit_if : Option ℕ → Cpu → Run Cpu
exit_if none s = done s
exit_if (some cx) s = exit cx s

unfoldable pub exit_current : Cpu → Run Cpu
exit_current s = exit_if (current s) s

contains-remove :
    (n m : ℕ) (xs : List ℕ)
    → Distinct xs
    → contains m (remove n xs) ≡ (not (m == n) && contains m xs)
contains-remove n m [] d = ground arith
contains-remove n m (x ∷ xs) d = ground (arith, contains-remove n m xs d.1)

remove-Distinct : (n : ℕ) (xs : List ℕ) → Distinct xs → Distinct (remove n xs)
remove-Distinct n [] d = tt
remove-Distinct n (x ∷ xs) d = ground (arith, remove-Distinct n xs d.1, contains-remove n x xs d.1)

-- The current context is gone, and another one of the set runs.
pub record Exited (s s' : Cpu) (prev next : ℕ) : Type 0 where
  pub current : s'.current_context ≡ some next
  pub other : next ≢ prev
  pub member : contains next s.contexts ≡ true
  pub runs : (s'.context next).running ≡ true
  pub stops : (s'.context prev).running ≡ false
  pub gone : contains prev s'.contexts ≡ false
  pub stay : (m : ℕ) → m ≢ prev → contains m s'.contexts ≡ contains m s.contexts

without : ℕ → Cpu → Cpu
without cx s = record s { contexts = remove cx s.contexts }

without-IsReady :
    (cx : ℕ) (s : Cpu) (prev idle : ℕ) → IsReady s prev idle → IsReady (without cx s) prev idle
unfolding without
without-IsReady cx s prev idle r = record {
  unlocked = r.unlocked;
  no_guard = r.no_guard;
  is_current = r.is_current;
  is_idle = r.is_idle;
  distinct = remove-Distinct cx s.contexts r.distinct;
}

exit_current-eq-chosen :
    (s : Cpu) (prev idle : ℕ) (o : Option ℕ)
    → IsReady s prev idle
    → choice s.context idle (others prev (remove prev s.contexts)) ≡ o
    → exit_current s ≡ never_returns (done (chosen prev o (without prev s)))
unfolding exit_current exit without
exit_current-eq-chosen s prev idle o r q =
    ap (λ cx. exit_if cx s) r.is_current
    ∙ (ap never_returns
          (switch-choice (without prev s) prev idle (without-IsReady prev s prev idle r))
        ∙ ap (λ c. never_returns (done (chosen prev c (without prev s)))) q)

-- The idle context is chosen when no other is.
choice_some :
    (context : ℕ → Context) (idle : ℕ) (xs : List ℕ)
    → contains idle xs ≡ true
    → eligible (context idle) ≡ true
    → choice context idle xs ≢ none
choice_some context idle xs c e = cases (first_busy context idle xs)
  where
    cases : (o : Option ℕ) → or_idle o (contains idle xs && eligible (context idle)) idle ≢ none
    cases none = rw (c, e) (λ q. ground (arith, q))
    cases (some n) = λ q. ground (arith, q)

chosen-Exited :
    (s : Cpu) (prev idle next : ℕ)
    → IsReady s prev idle
    → IsChoice (without prev s) prev idle (some next)
    → Exited s (chosen prev (some next) (without prev s)).1 prev next
unfolding without
chosen-Exited s prev idle next r (c, ne, e, _) = record {
  current = refl;
  other = ne;
  member = ground (arith, contains-remove prev next s.contexts r.distinct);
  runs = rw (==_refl next) refl;
  stops = ground (arith, ==_of_ne prev next (λ q. ne (sym q)), ==_refl prev);
  gone = contains-remove prev prev s.contexts r.distinct ∙ rw (==_refl prev) refl;
  stay = λ m q. contains-remove prev m s.contexts r.distinct ∙ rw (==_of_ne m prev q) refl;
}

-- Exiting from a context that is not the idle one, when the idle one can run, does not return: it
-- goes to another context of the set, and the set has lost the context and no other.
pub exit_current-Exited :
    (s : Cpu) (prev idle : ℕ)
    → IsReady s prev idle
    → contains idle s.contexts ≡ true
    → eligible (s.context idle) ≡ true
    → prev ≢ idle
    → (next : ℕ) × (s' : Cpu) × (exit_current s ≡ done s') × Exited s s' prev next
unfolding without
exit_current-Exited s prev idle r c e ne =
    cases (choice s.context idle (others prev (remove prev s.contexts))) refl
  where
    there : contains idle (others prev (remove prev s.contexts)) ≡ true
    there =
        contains-others idle prev (remove prev s.contexts)
        ∙ rw
            (
              contains-remove prev idle s.contexts r.distinct,
              ==_of_ne idle prev (λ q. ne (sym q)),
              c,
            )
            refl

    cases :
        (o : Option ℕ)
        → choice s.context idle (others prev (remove prev s.contexts)) ≡ o
        → (next : ℕ) × (s' : Cpu) × (exit_current s ≡ done s') × Exited s s' prev next
    cases none q = absurd (choice_some s.context idle _ there e q)
    cases (some next) q = (
      next,
      (chosen prev (some next) (without prev s)).1,
      exit_current-eq-chosen s prev idle (some next) r q,
      chosen-Exited s prev idle next r (
          subst (IsChoice (without prev s) prev idle) q
            (choice-IsChoice (without prev s) prev idle)),
    )

-- The idle context cannot exit when no other can run: `unreachable!` panics.
pub exit_current-panics :
    (s : Cpu) (idle : ℕ)
    → IsReady s idle idle
    → ((n : ℕ) → ¬ IsBusy s idle idle n)
    → exit_current s ≡ panics
unfolding without
exit_current-panics s idle r none_busy =
    cases (choice s.context idle (others idle (remove idle s.contexts))) refl
  where
    cases :
        (o : Option ℕ)
        → choice s.context idle (others idle (remove idle s.contexts)) ≡ o
        → exit_current s ≡ panics
    cases none q = exit_current-eq-chosen s idle idle none r q
    cases (some next) q =
        let (c, ne, e, _) =
          subst (IsChoice (without idle s) idle idle) q
            (choice-IsChoice (without idle s) idle idle) in
        absurd (
          none_busy next
            (ground (arith, contains-remove idle next s.contexts r.distinct), ne, ne, e))
