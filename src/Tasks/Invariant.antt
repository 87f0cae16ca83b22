-- ===== src/Tasks/Invariant.antt =====
-- What a context switch keeps: one context runs, the current one, and all locks are free when the
-- switch is finished.
use mathlib.Core.Path.{subst}
use mathlib.Core.Option.{some-injective}
use kados_ng.Base.{ℕ, ◌≡◌, ◌≢◌, ◌⊎◌, inl, inr, refl, arith, sym, ap, ◌∙◌}
use kados_ng.Base.{
  Bool, true, false, not, ◌&&◌, Bool-cases, Option, none, some, List, [], ◌∷◌, ◌==◌, ==_refl,
  ==_of_ne, ==_iff, ℕ-cases, Option-cases,
}
use kados_ng.Tasks.Switch.{
  Context, Cpu, done, contains, others, eligible, switch, switch_contexts, switch_arch_hook,
  switch_finish_hook, take_addr_space,
}
use kados_ng.Tasks.Choice.{
  switch-choice, choice, first_busy, or_idle, contains-others, chosen, IsReady,
}

-- Exactly the context `n` has its `running` flag set.
abbrev pub OnlyRunning : (ℕ → Context) → ℕ → Type 0
OnlyRunning context n = (m : ℕ) → (context m).running ≡ (m == n)

-- A switch hands the flag on: after it the new context is the only one that runs.
pub switch_contexts-OnlyRunning :
    (prev next : ℕ) (s : Cpu)
    → OnlyRunning s.context prev
    → prev ≢ next
    → OnlyRunning (switch_contexts prev next s).context next
switch_contexts-OnlyRunning prev next s h n m = ground (arith, h m, h next, h prev)

first_busy-IsFirst :
    (context : ℕ → Context) (idle n : ℕ) (xs : List ℕ)
    → first_busy context idle xs ≡ some n
    → (contains n xs ≡ true) × (n ≢ idle) × (eligible (context n) ≡ true)
first_busy-IsFirst context idle n [] h = absurd (ground arith)
first_busy-IsFirst context idle n (x ∷ xs) h =
    elim (Bool-cases (not (x == idle) && eligible (context x))) [
      | inl e ↦ here e (some-injective x n (rw e at h))
      | inr e ↦ there (first_busy-IsFirst context idle n xs (rw e at h))
    ]
  where
    here :
        (not (x == idle) && eligible (context x)) ≡ true
        → x ≡ n
        → (contains n (x ∷ xs) ≡ true) × (n ≢ idle) × (eligible (context n) ≡ true)
    here e p =
        subst (λ m. (contains m (x ∷ xs) ≡ true) × (m ≢ idle) × (eligible (context m) ≡ true)) p
          (rw (==_refl x) refl, λ q. absurd (ground (arith, e)), ground (arith, e))

    there :
        (contains n xs ≡ true) × (n ≢ idle) × (eligible (context n) ≡ true)
        → (contains n (x ∷ xs) ≡ true) × (n ≢ idle) × (eligible (context n) ≡ true)
    there (c, d, e) = (ground arith, d, e)

first_busy-none :
    (context : ℕ → Context) (idle : ℕ) (xs : List ℕ)
    → first_busy context idle xs ≡ none
    → (n : ℕ) → contains n xs ≡ true
    → n ≢ idle
    → eligible (context n) ≡ false
first_busy-none context idle [] h n c d = absurd (ground arith)
first_busy-none context idle (x ∷ xs) h n c d =
    elim (Bool-cases (not (x == idle) && eligible (context x))) [
      | inl e ↦ absurd (some-ne-none (rw e at h))
      | inr e ↦ elim (ℕ-cases x n) [
        | inl p ↦ subst (λ m. eligible (context m) ≡ false) p (idle_not e (λ q. d (sym p ∙ q)))
        | inr q ↦ first_busy-none context idle xs (rw e at h) n (ground arith) d
      ]
    ]
  where
    some-ne-none : {m : ℕ} → some m ≡ none → ⊥
    some-ne-none p = ground arith

    idle_not :
        (not (x == idle) && eligible (context x)) ≡ false → x ≢ idle → eligible (context x) ≡ false
    idle_not e q = rw (==_of_ne x idle q) at e

-- Another context of the set that could run, the idle one left out.
abbrev pub IsBusy : Cpu → ℕ → ℕ → ℕ → Type 0
IsBusy s prev idle n =
    (contains n s.contexts ≡ true) × (n ≢ prev) × (n ≢ idle) × (eligible (s.context n) ≡ true)

-- What a choice of `switch` should be: a context of the set other than the current one that can
-- run, and the idle one only when no other can; and no choice only when there is none.
abbrev pub IsChoice : Cpu → ℕ → ℕ → Option ℕ → Type 0
IsChoice s prev idle none = (n : ℕ) → ¬ IsBusy s prev idle n
IsChoice s prev idle (some n) =
    (contains n s.contexts ≡ true)
    × (n ≢ prev)
    × (eligible (s.context n) ≡ true)
    × (n ≡ idle → (m : ℕ) → ¬ IsBusy s prev idle m)

nobody :
    (s : Cpu) (prev idle : ℕ)
    → first_busy s.context idle (others prev s.contexts) ≡ none
    → (n : ℕ) → ¬ IsBusy s prev idle n
nobody s prev idle h n (c, p, q, e) = absurd (
    ground (
      arith,
      first_busy-none s.context idle (others prev s.contexts) h n
          (rw (contains-others n prev s.contexts, ==_of_ne n prev p) c) q,
    ))

pub choice-IsChoice :
    (s : Cpu) (prev idle : ℕ)
    → IsChoice s prev idle (choice s.context idle (others prev s.contexts))
choice-IsChoice s prev idle =
    cases (Option-cases (first_busy s.context idle (others prev s.contexts)))
  where
    member :
        (n : ℕ)
        → contains n (others prev s.contexts) ≡ true
        → (contains n s.contexts ≡ true) × (n ≢ prev)
    member n c = ground (arith, contains-others n prev s.contexts)

    at_idle :
        (b : Bool)
        → (contains idle (others prev s.contexts) && eligible (s.context idle)) ≡ b
        → ((n : ℕ) → ¬ IsBusy s prev idle n)
        → IsChoice s prev idle (or_idle none b idle)
    at_idle false e k = k
    at_idle true e k =
        ((member idle (ground arith)).0, (member idle (ground arith)).1, ground arith, λ _. k)

    cases :
        (first_busy s.context idle (others prev s.contexts) ≡ none)
          ⊎ ((n : ℕ) × (first_busy s.context idle (others prev s.contexts) ≡ some n))
        → IsChoice s prev idle (choice s.context idle (others prev s.contexts))
    cases (inl h) = rw h (at_idle _ refl (nobody s prev idle h))
    cases (inr (n, h)) =
        let (c, d, e) = first_busy-IsFirst s.context idle n (others prev s.contexts) h in
        rw h ((member n c).0, (member n c).1, e, λ q. absurd (d q))

-- On a CPU with no lock held, `switch` returns: it neither spins nor panics. It goes to a context
-- of the set other than the current one that is not running and not dead, and to the idle context
-- only when no other can run; it reports `all_idle` only when no context but the current and the
-- idle one could.
pub switch-IsChoice :
    (s : Cpu) (prev idle : ℕ)
    → IsReady s prev idle
    → (o : Option ℕ) × (switch s ≡ done (chosen prev o s)) × IsChoice s prev idle o
switch-IsChoice s prev idle r = (
  choice s.context idle (others prev s.contexts),
  switch-choice s prev idle r,
  choice-IsChoice s prev idle,
)

-- The state of `switch` when it goes from `prev` to `next`.
abbrev pub in_switch : ℕ → ℕ → Cpu → Cpu
in_switch prev next s =
    switch_contexts prev next (record s { held = prev ∷ []; switch_lock = true })

abbrev pub addr_space_of : Cpu → ℕ → Option ℕ
addr_space_of s n = (s.context n).addr_space

arch_hook-addr_space : (s : Cpu) → (switch_arch_hook s).current_addr_space ≡ s.next_addr_space
unfolding switch_arch_hook
arch_hook-addr_space s = cases s.current_addr_space s.next_addr_space refl refl
  where
    cases :
        (a b : Option ℕ)
        → s.current_addr_space ≡ a
        → s.next_addr_space ≡ b
        → (switch_arch_hook s).current_addr_space ≡ s.next_addr_space
    cases none none p q = rw (p, q) refl
    cases none (some b) p q = rw (p, q) refl
    cases (some a) none p q = rw (p, q) refl
    cases (some a) (some b) p q = elim (ℕ-cases a b) [
      | inl e ↦ rw (p, q, (==_iff a b).1 e) (ap some e)
      | inr n ↦ rw (p, q, ==_of_ne a b n) refl
    ]

-- The state that `switch_finish_hook` passes to `switch_arch_hook`.
finished : ℕ → ℕ → Cpu → Cpu
finished prev next s = record (in_switch prev next s) {
  guards = none;
  held = [];
  switch_lock = false;
}

take_addr_space-IsReady :
    (b : Bool) (s : Cpu) (n idle : ℕ) → IsReady s n idle → IsReady (take_addr_space b s) n idle
take_addr_space-IsReady true s n idle r = record {
  unlocked = r.unlocked;
  no_guard = r.no_guard;
  is_current = r.is_current;
  is_idle = r.is_idle;
  distinct = r.distinct;
}
take_addr_space-IsReady false s n idle r = record {
  unlocked = r.unlocked;
  no_guard = r.no_guard;
  is_current = r.is_current;
  is_idle = r.is_idle;
  distinct = r.distinct;
}

take_addr_space-OnlyRunning :
    (b : Bool) (s : Cpu) (n : ℕ)
    → OnlyRunning s.context n
    → OnlyRunning (take_addr_space b s).context n
take_addr_space-OnlyRunning true s n h = h
take_addr_space-OnlyRunning false s n h = h

finished-IsReady :
    (s : Cpu) (prev next idle : ℕ) → IsReady s prev idle → IsReady (finished prev next s) next idle
unfolding finished
finished-IsReady s prev next idle r = record {
  unlocked = refl;
  no_guard = refl;
  is_current = refl;
  is_idle = r.is_idle;
  distinct = r.distinct;
}

finished-addr_space :
    (s : Cpu) (prev next : ℕ)
    → prev ≢ next
    → (finished prev next s).next_addr_space ≡ addr_space_of s next
unfolding finished
finished-addr_space s prev next n = rw (==_refl next, ==_of_ne next prev (λ e. n (sym e))) refl

-- Once `switch_finish_hook` has run after a switch from the one running context to another, all
-- locks are free, the other is the current context and the only one that runs, and its address
-- space is the current one: the CPU is ready for another switch.
pub switch_finish_hook-IsReady :
    (s : Cpu) (prev next idle : ℕ)
    → IsReady s prev idle
    → OnlyRunning s.context prev
    → prev ≢ next
    → (s' : Cpu) × (switch_finish_hook (in_switch prev next s) ≡ done s')
      × IsReady s' next idle
      × OnlyRunning s'.context next
      × (s'.current_addr_space ≡ addr_space_of s next)
unfolding switch_finish_hook switch_arch_hook finished
switch_finish_hook-IsReady s prev next idle r h n = (
  switch_arch_hook (finished prev next s),
  rw (==_of_ne next prev (λ e. n (sym e)), ==_refl prev, ==_refl next) refl,
  take_addr_space-IsReady _ (finished prev next s) next idle (finished-IsReady s prev next idle r),
  take_addr_space-OnlyRunning _ (finished prev next s) next
      (switch_contexts-OnlyRunning prev next s h n),
  arch_hook-addr_space (finished prev next s) ∙ finished-addr_space s prev next n,
)
