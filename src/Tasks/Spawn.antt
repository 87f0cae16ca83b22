-- ===== src/Tasks/Spawn.antt =====
-- `spawn` of task/mod.rs, with `Stack::new` (task/stack.rs), `AddrSpaceLock` (task/addr_space.rs),
-- `Context::new` (task/context.rs) and `setup_initial_call` (arch/aarch64/task.rs). The addresses of
-- new `Arc`s, which the heap of another package gives out, are arguments.
use kados_ng.Base.{
  ℕ, ◌*◌, Bool, true, false, Option, none, some, List, [], ◌∷◌, ltb, ◌==◌, if◌then◌else◌,
}
use kados_ng.Arch.{page_size, wrapping_add, wrapping_sub}
use kados_ng.Errno.{Errno}
use kados_ng.Mem.Outcome.{Outcome, ok, err, panic}
use kados_ng.Mem.PhysAddr
use kados_ng.Mem.PhysAddr.{PhysAddr}
use kados_ng.Mem.VirtAddr.{VirtAddr}
use kados_ng.Mem.Hhdm.{as_hhdm_virt}
use kados_ng.Mem.Memory.{Memory, fill_words}
use kados_ng.Frames.Allocator.{Buddy, FrameAllocator, allocate}
use kados_ng.Exception.Vectors.{frame_size}
use kados_ng.Paging.Table.{user, kernel, PageTable}
use kados_ng.Paging.Level.{level4}
use kados_ng.Tasks.Switch.{Context, waiting, Cpu, update}
use kados_ng.Tasks.Registers.{ArchContext, lr, sp, x28, set_field}

-- A value, an error code or a panic.
pub data Result (A : Type 0) : Type 0 where
  done : A → Result A
  fails : Errno → Result A
  panics : Result A

-- `Stack::len`
abbrev pub stack_len : ℕ
stack_len = page_size * 16

abbrev pub initial_top : PhysAddr → VirtAddr
initial_top base = wrapping_add (as_hhdm_virt base) stack_len

-- A `BTreeSet` keeps its elements in ascending order, each once.
abbrev pub insert : ℕ → List ℕ → List ℕ
insert n [] = n ∷ []
insert n (x ∷ xs) = if n == x then x ∷ xs else if ltb n x then n ∷ x ∷ xs else x ∷ insert n xs

-- A map with a new value at a key.
abbrev pub put : {A : Type 0} → ℕ → A → (ℕ → A) → ℕ → A
put k a f n = if n == k then a else f n

module _ (buddy : Buddy) where
  open buddy use {Heap}

  -- The contexts with what a switch does not read, the frames, and the tables of address spaces.
  pub record Kernel : Type 0 where
    pub cpu : Cpu
    pub arch : ℕ → ArchContext
    pub kstack : ℕ → Option PhysAddr
    pub userspace : ℕ → Bool
    pub pid : ℕ → ℕ
    pub next_pid : ℕ
    pub spaces : ℕ → PageTable
    pub frames : FrameAllocator Heap
    pub memory : Memory
    pub ttbr1 : ℕ

  abbrev pub M : Type 0 → Type 0
  M A = Kernel → Result A × Kernel

  abbrev bind : {A B : Type 0} → Result A × Kernel → (A → M B) → Result B × Kernel
  bind (done a, s) f = f a s
  bind (fails e, s) f = (fails e, s)
  bind (panics, s) f = (panics, s)

  infixl 5 ◌>>=◌ ◌>>◌
  abbrev ◌>>=◌ : {A B : Type 0} → M A → (A → M B) → M B
  ◌>>=◌ m f s = bind (m s) f

  abbrev ◌>>◌ : {B : Type 0} → M (Unit {0}) → M B → M B
  m >> k = m >>= λ _. k

  -- `KernelFrameAllocator.allocate`, and what its caller makes of the result.
  abbrev pub allocate_with : ℕ → (Outcome PhysAddr → Result PhysAddr) → M PhysAddr
  allocate_with count f s =
      let (o, a, m) = allocate buddy s.frames count s.memory in
      (f o, record s { frames = a; memory = m })

  abbrev no_memory : Outcome PhysAddr → Result PhysAddr
  no_memory (ok base) = done base
  no_memory (err e) = fails Errno.enomem
  no_memory panic = panics

  abbrev unwrapped : Outcome PhysAddr → Result PhysAddr
  unwrapped (ok frame) = done frame
  unwrapped (err e) = panics
  unwrapped panic = panics

  abbrev pub stack_new : M PhysAddr
  stack_new = allocate_with 16 no_memory

  -- `Context::new`, at the address `cx`, and its insertion into `CONTEXTS`.
  abbrev new_context : Context
  new_context = record { status = waiting; running = false; addr_space = none }

  abbrev pub context_new : ℕ → M (Unit {0})
  context_new cx s = (
    done tt,
    record s {
      cpu = record (s.cpu) {
        context = update s.cpu.context cx new_context;
        contexts = insert cx s.cpu.contexts;
      };
      arch = put cx (λ f. 0) s.arch;
      kstack = put cx none s.kstack;
      userspace = put cx false s.userspace;
      pid = put cx s.next_pid s.pid;
      next_pid = wrapping_add s.next_pid 1;
    },
  )

  abbrev set_space : ℕ → PageTable → M (Unit {0})
  set_space space t s = (done tt, record s { spaces = put space t s.spaces })

  -- `AddrSpaceLock::new_user` and `current_kernel`, at the address `space`.
  abbrev pub space_new : Bool → ℕ → M (Unit {0})
  space_new true space s =
      bind (allocate_with 1 unwrapped s)
        λ frame. set_space space (record { frame = frame; level = level4; kind = user })
  space_new false space s =
      set_space space
        (record { frame = PhysAddr.new_canonical s.ttbr1; level = level4; kind = kernel }) s

  -- The registers of the context `cx` that `setup_initial_call` sets, and the frame that it clears.
  abbrev pub setup_initial_call : ℕ → PhysAddr → ℕ → ℕ → Bool → M (Unit {0})
  setup_initial_call cx stack entry_func enter_usermode true s =
      let top = wrapping_sub (initial_top stack) frame_size in
      (
        done tt,
        record s {
          memory = fill_words top 0 frame_size s.memory;
          arch =
              put cx
                (set_field sp top
                  (set_field x28 entry_func (set_field lr enter_usermode (s.arch cx))))
                s.arch;
        },
      )
  setup_initial_call cx stack entry_func enter_usermode false s = (
    done tt,
    record s {
      arch = put cx (set_field sp (initial_top stack) (set_field lr entry_func (s.arch cx))) s.arch;
    },
  )

  abbrev pub set_addr_space : ℕ → ℕ → M (Unit {0})
  set_addr_space cx space s = (
    done tt,
    record s {
      cpu = record (s.cpu) {
        context = update s.cpu.context cx (record (s.cpu.context cx) { addr_space = some space });
      };
    },
  )

  abbrev pub finish : ℕ → PhysAddr → Bool → M ℕ
  finish cx stack is_user s = (
    done cx,
    record s { kstack = put cx (some stack) s.kstack; userspace = put cx is_user s.userspace },
  )

  unfoldable pub spawn : ℕ → ℕ → ℕ → Bool → ℕ → M ℕ
  spawn cx space enter_usermode is_user entry_func = do
    stack ← stack_new
    context_new cx
    space_new is_user space
    set_addr_space cx space
    setup_initial_call cx stack entry_func enter_usermode is_user
    finish cx stack is_user
