-- ===== src/Tasks/Start.antt =====
-- What `spawn` of task/mod.rs makes ready: the new context, its place in the set, and where it starts.
use kados_ng.Base.{
  ℕ, ◌≡◌, ◌≢◌, refl, ◌∙◌, arith, Bool, true, false, ◌||◌, Option, none, some, List, [], ◌∷◌, ◌==◌,
  ==_refl, ==_of_ne,
}
use kados_ng.Errno.{Errno}
use kados_ng.Mem.Outcome.{ok, err, MemError}
use kados_ng.Mem.PhysAddr.{PhysAddr}
use kados_ng.Mem.Memory.{Memory}
use kados_ng.Frames.Allocator.{Buddy, FrameAllocator, allocate}
use kados_ng.Tasks.Switch.{Cpu, done as returns, contains, eligible, switch}
use kados_ng.Tasks.Choice.{Distinct, IsReady, chosen}
use kados_ng.Tasks.Invariant.{IsChoice, switch-IsChoice}
use kados_ng.Tasks.Registers.{Core, lr, sp, switch_to_inner, switch_to_inner-loads}
use kados_ng.Tasks.Spawn.{
  Kernel, insert, done, fails, spawn, initial_top, context_new, space_new, set_addr_space,
  setup_initial_call, finish,
}

pub contains-insert :
    (n m : ℕ) (xs : List ℕ) → contains m (insert n xs) ≡ ((n == m) || contains m xs)
contains-insert n m [] = ground arith
contains-insert n m (x ∷ xs) = ground (arith, contains-insert n m xs)

pub insert-Distinct :
    (n : ℕ) (xs : List ℕ) → contains n xs ≡ false → Distinct xs → Distinct (insert n xs)
insert-Distinct n [] h d = (refl, tt)
insert-Distinct n (x ∷ xs) h d = ground (arith, insert-Distinct n xs, contains-insert n x xs)

module _ (buddy : Buddy) where
  open buddy use {Heap}

  -- A context that a switch can choose, and that begins at its entry on its own stack.
  pub record Started (s : Cpu) (s' : Kernel buddy) (cx entry_func : ℕ) (stack : PhysAddr)
      : Type 0 where
    pub member : contains cx s'.cpu.contexts ≡ true
    pub others : (m : ℕ) → cx ≢ m → contains m s'.cpu.contexts ≡ contains m s.contexts
    pub can_run : eligible (s'.cpu.context cx) ≡ true
    pub starts :
        (prev : ℕ) (c : Core)
        → prev ≢ cx
        → c.saved cx ≡ s'.arch cx
        → ((switch_to_inner prev cx c).reg lr ≡ entry_func)
          × ((switch_to_inner prev cx c).reg sp ≡ initial_top stack)
    pub owns : s'.kstack cx ≡ some stack

  -- The kernel after `spawn`, from the one after the allocation of the stack.
  spawned : Kernel buddy → ℕ → ℕ → ℕ → ℕ → PhysAddr → Kernel buddy
  spawned s cx space um entry stack =
      let s = (context_new buddy cx s).1 in
      let s = (space_new buddy false space s).1 in
      let s = (set_addr_space buddy cx space s).1 in
      let s = (setup_initial_call buddy cx stack entry um false s).1 in
      (finish buddy cx stack false s).1

  spawned-IsReady :
      (s : Kernel buddy) (cx space um entry prev idle : ℕ) (stack : PhysAddr)
      → IsReady s.cpu prev idle
      → contains cx s.cpu.contexts ≡ false
      → IsReady (spawned s cx space um entry stack).cpu prev idle
  unfolding spawned
  spawned-IsReady s cx space um entry prev idle stack r fresh = record {
    unlocked = r.unlocked;
    no_guard = r.no_guard;
    is_current = r.is_current;
    is_idle = r.is_idle;
    distinct = insert-Distinct cx s.cpu.contexts fresh r.distinct;
  }

  spawned-Started :
      (s : Kernel buddy) (cx space um entry : ℕ) (stack : PhysAddr)
      → Started s.cpu (spawned s cx space um entry stack) cx entry stack
  unfolding spawned
  spawned-Started s cx space um entry stack = record {
    member = contains-insert cx cx s.cpu.contexts ∙ rw (==_refl cx) refl;
    others = λ m ne. contains-insert cx m s.cpu.contexts ∙ rw (==_of_ne cx m ne) refl;
    can_run = rw (==_refl cx) refl;
    starts = λ prev c ne e. (
      switch_to_inner-loads prev cx c lr ne ∙ rw (e, ==_refl cx) refl,
      switch_to_inner-loads prev cx c sp ne ∙ rw (e, ==_refl cx) refl,
    );
    owns = rw (==_refl cx) refl;
  }

  -- A context that can run keeps `switch` from reporting that all are idle.
  switches :
      (s : Cpu) (prev idle n : ℕ)
      → IsReady s prev idle
      → contains n s.contexts ≡ true
      → eligible (s.context n) ≡ true
      → n ≢ prev
      → n ≢ idle
      → (next : ℕ) × (switch s ≡ returns (chosen prev (some next) s))
  switches s prev idle n r c e p i = cases (switch-IsChoice s prev idle r)
    where
      cases :
          (o : Option ℕ) × (switch s ≡ returns (chosen prev o s)) × IsChoice s prev idle o
          → (next : ℕ) × (switch s ≡ returns (chosen prev (some next) s))
      cases (none, run, all) = absurd (all n (c, p, i, e))
      cases (some next, run, all) = (next, run)

  -- `spawn` of a kernel task, at the address of a new context and with the frames for a stack,
  -- returns the context on a CPU that holds no lock: it is in the set, whose other contexts stay,
  -- it owns its stack, and switching to it loads the entry function as the return address and the
  -- top of its stack as the stack pointer. A `switch` after it does not report that all contexts
  -- are idle.
  pub spawn-Started :
      (s : Kernel buddy) (cx space enter_usermode entry_func prev idle : ℕ) (stack : PhysAddr)
      (a : FrameAllocator Heap) (m : Memory)
      → allocate buddy s.frames 16 s.memory ≡ (ok stack, a, m)
      → IsReady s.cpu prev idle
      → contains cx s.cpu.contexts ≡ false
      → cx ≢ prev
      → cx ≢ idle
      → (s' : Kernel buddy) × (spawn buddy cx space enter_usermode false entry_func s
          ≡ (done cx, s'))
        × Started s.cpu s' cx entry_func stack
        × (n : ℕ) × (switch s'.cpu ≡ returns (chosen prev (some n) s'.cpu))
  unfolding spawn spawned
  spawn-Started s cx space um entry prev idle stack a m e r fresh p i =
      let s₀ = record s { frames = a; memory = m } in
      let started = spawned-Started s₀ cx space um entry stack in
      let (next, run) =
        switches (spawned s₀ cx space um entry stack).cpu prev idle cx
          (spawned-IsReady s₀ cx space um entry prev idle stack r fresh) started.member
          started.can_run p i in
      (spawned s₀ cx space um entry stack, rw e refl, started, next, run)

  -- Without memory for a stack there is no new context.
  pub spawn_out_of_memory :
      (s : Kernel buddy) (cx space enter_usermode entry_func : ℕ) (is_user : Bool) (e : MemError)
      (a : FrameAllocator Heap) (m : Memory)
      → allocate buddy s.frames 16 s.memory ≡ (err e, a, m)
      → spawn buddy cx space enter_usermode is_user entry_func s
        ≡ (fails Errno.enomem, record s { frames = a; memory = m })
  unfolding spawn
  spawn_out_of_memory s cx space um entry is_user e a m h = rw h refl
