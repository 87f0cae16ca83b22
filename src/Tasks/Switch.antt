-- ===== src/Tasks/Switch.antt =====
-- `switch`, `switch_finish_hook` and `switch_arch_hook` of task/switch.rs, on one CPU. A context is
-- the address behind its `Arc`, and `CONTEXTS`, a B-tree set in the order of these addresses, is an
-- ascending list. A lock that is taken when it is held spins forever.
use kados_ng.Base.{
  ℕ, Bool, true, false, not, ◌&&◌, ◌||◌, Option, none, some, List, [], ◌∷◌, ◌++◌, ltb, ◌==◌,
  if◌then◌else◌,
}

-- `Status` of task/context.rs; `BlockReason` has no constructors, so a context is never blocked.
pub data Status : Type 0 where
  runnable waiting dead : Status

-- The fields that a switch reads or writes; registers, stack and process id are left out.
pub record Context : Type 0 where
  pub status : Status
  pub running : Bool
  pub addr_space : Option ℕ

pub data SwitchResult : Type 0 where
  switched all_idle : SwitchResult

-- A call returns, spins on a lock that nobody releases, or panics.
pub data Run (A : Type 0) : Type 0 where
  done : A → Run A
  spins : Run A
  panics : Run A

-- The statics, the CPU-local block and the contexts. `held` are the context locks that are taken,
-- `guards` is the `SwitchResultGuard`, `table` the address space whose table is current.
pub record Cpu : Type 0 where
  pub contexts : List ℕ
  pub context : ℕ → Context
  pub held : List ℕ
  pub switch_lock : Bool
  pub guards : Option (ℕ × ℕ)
  pub current_context : Option ℕ
  pub idle_context : Option ℕ
  pub current_addr_space : Option ℕ
  pub next_addr_space : Option ℕ
  pub table : Option ℕ

abbrev pub contains : ℕ → List ℕ → Bool
contains n [] = false
contains n (x ∷ xs) = (x == n) || contains n xs

-- A guard is dropped.
abbrev pub release : ℕ → List ℕ → List ℕ
release n [] = []
release n (x ∷ xs) = if x == n then xs else x ∷ release n xs

abbrev pub above : ℕ → List ℕ → List ℕ
above n [] = []
above n (x ∷ xs) = if ltb n x then x ∷ above n xs else above n xs

abbrev pub below : ℕ → List ℕ → List ℕ
below n [] = []
below n (x ∷ xs) = if ltb x n then x ∷ below n xs else below n xs

abbrev pub is_ready : Status → Bool
is_ready runnable = true
is_ready waiting = true
is_ready dead = false

-- `!next_guard.running && matches!(next_guard.status, Runnable | Waiting)`
abbrev pub eligible : Context → Bool
eligible c = not c.running && is_ready c.status

-- The loop of `switch` over the candidates, with `skip_idle`.
unfoldable pub scan : (ℕ → Context) → List ℕ → ℕ → List ℕ → Bool → Run (Option ℕ)
scan context held idle [] skip = done none
scan context held idle (x ∷ xs) skip =
    if (x == idle) && skip
    then scan context held idle xs false
    else if contains x held
    then spins
    else if eligible (context x)
    then done (some x)
    else scan context held idle xs skip

-- The candidates: the contexts after the current one, those before it, and the idle context.
abbrev pub others : ℕ → List ℕ → List ℕ
others prev contexts = above prev contexts ++ below prev contexts

abbrev pub update : (ℕ → Context) → ℕ → Context → ℕ → Context
update context n c m = if m == n then c else context m

abbrev pub set_running : Bool → ℕ → (ℕ → Context) → ℕ → Context
set_running b n context = update context n (record (context n) { running = b })

abbrev pub set_runnable : ℕ → (ℕ → Context) → ℕ → Context
set_runnable n context = update context n (record (context n) { status = runnable })

-- The end of `switch`, up to `switch_to`: both guards stay taken, and so does `SWITCH_LOCK`.
abbrev pub switch_contexts : ℕ → ℕ → Cpu → Cpu
switch_contexts prev next s =
    let context = set_running true next (set_running false prev (set_runnable next s.context)) in
    record s {
      context = context;
      held = next ∷ s.held;
      current_context = some next;
      guards = some (prev, next);
      next_addr_space = (context next).addr_space;
    }

abbrev pub unlock_switch : Cpu → Cpu
unlock_switch s = record s { switch_lock = false }

abbrev pub switch_found : ℕ → Run (Option ℕ) → Cpu → Run (SwitchResult × Cpu)
switch_found prev spins s = spins
switch_found prev panics s = panics
switch_found prev (done none) s =
    done (all_idle, unlock_switch (record s { held = release prev s.held }))
switch_found prev (done (some next)) s = done (switched, switch_contexts prev next s)

abbrev pub switch_idle : ℕ → Option ℕ → Cpu → Run (SwitchResult × Cpu)
switch_idle prev none s = panics
switch_idle prev (some idle) s =
    switch_found prev (scan s.context s.held idle (others prev s.contexts ++ idle ∷ []) true) s

abbrev pub switch_prev : Option ℕ → Cpu → Run (SwitchResult × Cpu)
switch_prev none s = done (all_idle, unlock_switch s)
switch_prev (some prev) s =
    if contains prev s.held
    then spins
    else switch_idle prev s.idle_context (record s { held = prev ∷ s.held })

unfoldable pub switch : Cpu → Run (SwitchResult × Cpu)
switch s =
    if s.switch_lock then spins else switch_prev s.current_context (record s { switch_lock = true })

abbrev pub same : Option ℕ → Option ℕ → Bool
same none none = true
same none (some b) = false
same (some a) none = false
same (some a) (some b) = a == b

-- `make_current` on the address space that is now current, if there is one.
abbrev pub make_current : Option ℕ → Option ℕ → Option ℕ
make_current none table = table
make_current (some a) table = some a

-- The two ends of `switch_arch_hook`, when the address space is the same and when it is not.
abbrev pub take_addr_space : Bool → Cpu → Cpu
take_addr_space true s = record s { next_addr_space = none }
take_addr_space false s = record s {
  next_addr_space = none;
  current_addr_space = s.next_addr_space;
  table = make_current s.next_addr_space s.table;
}

unfoldable pub switch_arch_hook : Cpu → Cpu
switch_arch_hook s = take_addr_space (same s.current_addr_space s.next_addr_space) s

abbrev pub finish_guards : Option (ℕ × ℕ) → Cpu → Run Cpu
finish_guards none s = panics
finish_guards (some (prev, next)) s = done (
    switch_arch_hook
      record s { guards = none; held = release next (release prev s.held); switch_lock = false })

unfoldable pub switch_finish_hook : Cpu → Run Cpu
switch_finish_hook s = finish_guards s.guards s
