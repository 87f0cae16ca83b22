-- ===== src/Tasks/Tests.antt =====
-- A CPU with three contexts, of which the first one runs and is the idle one.
use kados_ng.Base.{
  ℕ, ◌+◌, ◌*◌, ◌≡◌, refl, arith, true, false, ◌==◌, if◌then◌else◌, Option, none, some, [], ◌∷◌,
}
use kados_ng.Tasks.Switch.{Context, Cpu, done, runnable, waiting, dead, switch, switch_finish_hook}
use kados_ng.Tasks.Choice.{IsReady, chosen}
use kados_ng.Tasks.Invariant.{
  OnlyRunning, IsChoice, in_switch, addr_space_of, switch-IsChoice, switch_finish_hook-IsReady,
}
use kados_ng.Mem.Outcome.{ok}
use kados_ng.Mem.Memory.{Memory, fill, fill_words}
use kados_ng.Mem.VirtAddr.{align_ok, is_aligned}
use kados_ng.Mem.Hhdm.{as_hhdm_virt}
use kados_ng.Mem.Canonical.{canonicalize_virtaddr, canonicalize_physaddr}
use kados_ng.Mem.FrameCount.{to_bytes}
use kados_ng.Arch.{hhdm_physical_offset}
use kados_ng.Frames.Allocator.{Buddy, post_heap, allocate, buddy_allocate}
use kados_ng.Paging.Level.{level4}
use kados_ng.Paging.Table.{kernel}
use kados_ng.Tasks.Registers.{Core, x19, index, switch_to_inner, switch_to_inner_resumes}
use kados_ng.Tasks.Spawn
use kados_ng.Tasks.Spawn.{Kernel, spawn}
use kados_ng.Tasks.Start.{Started, spawn-Started}
use kados_ng.Tasks.Exit.{exit_current, Exited, exit_current-Exited}

-- The context at 16 runs, the one at 32 is dead, and the one at 48 waits in an address space.
abbrev contexts : ℕ → Context
contexts n =
    if n == 16
    then record { status = runnable; running = true; addr_space = none }
    else if n == 48
    then record { status = waiting; running = false; addr_space = some 7 }
    else record { status = dead; running = false; addr_space = none }

abbrev cpu : Cpu
cpu = record {
  contexts = 16 ∷ 32 ∷ 48 ∷ [];
  context = contexts;
  held = [];
  switch_lock = false;
  guards = none;
  current_context = some 16;
  idle_context = some 16;
  current_addr_space = none;
  next_addr_space = none;
  table = none;
}

cpu-IsReady : IsReady cpu 16 16
cpu-IsReady = record {
  unlocked = refl;
  no_guard = refl;
  is_current = refl;
  is_idle = refl;
  distinct = (refl, (refl, (refl, tt)));
}

cpu-OnlyRunning : OnlyRunning contexts 16
cpu-OnlyRunning m = ground arith

switch-IsChoice_example :
    (o : Option ℕ) × (switch cpu ≡ done (chosen 16 o cpu)) × IsChoice cpu 16 16 o
switch-IsChoice_example = switch-IsChoice cpu 16 16 cpu-IsReady

switch_finish_hook-IsReady_example :
    (s' : Cpu) × (switch_finish_hook (in_switch 16 48 cpu) ≡ done s')
    × IsReady s' 48 16
    × OnlyRunning s'.context 48
    × (s'.current_addr_space ≡ addr_space_of cpu 48)
switch_finish_hook-IsReady_example =
    switch_finish_hook-IsReady cpu 16 48 16 cpu-IsReady cpu-OnlyRunning (λ e. omega (arith, e))

-- A heap that gives out the frames from 16 on.
abbrev buddy : Buddy
buddy = record {
  Heap = ℕ;
  empty = 16;
  add_frame = λ start end h. h;
  alloc = λ count h. (some h, h + count);
  dealloc = λ start count h. h;
}

abbrev kernel_state : Kernel buddy
kernel_state = record {
  cpu = cpu;
  arch = λ n f. 0;
  kstack = λ n. none;
  userspace = λ n. false;
  pid = λ n. 0;
  next_pid = 3;
  spaces = λ n. record { frame = 0; level = level4; kind = kernel };
  frames = post_heap 16;
  memory = λ q. 1;
  ttbr1 = 0x9000;
}

abbrev after_stack : Memory
after_stack = fill_words (0x10000 + hhdm_physical_offset) 0 0x10000 (λ q. 1)

stack_allocated :
    allocate buddy (post_heap 16) 16 (λ q. 1) ≡ (ok 0x10000, post_heap 32, after_stack)
unfolding allocate buddy_allocate fill align_ok is_aligned as_hhdm_virt canonicalize_virtaddr
    canonicalize_physaddr to_bytes
stack_allocated = refl

spawn-Started_example :
    (s' : Kernel buddy) × (spawn buddy 64 80 0x5000 false 0x4000 kernel_state ≡ (Spawn.done 64, s'))
    × Started buddy cpu s' 64 0x4000 0x10000
    × (n : ℕ) × (switch s'.cpu ≡ done (chosen 16 (some n) s'.cpu))
spawn-Started_example =
    spawn-Started buddy kernel_state 64 80 0x5000 0x4000 16 16 0x10000 (post_heap 32) after_stack
      stack_allocated cpu-IsReady refl (λ e. omega (arith, e)) (λ e. omega (arith, e))

-- The waiting context runs and exits.
abbrev waiting_runs : Cpu
waiting_runs = record cpu {
  context = λ n.
      if n == 48
      then record { status = runnable; running = true; addr_space = some 7 }
      else if n == 16
      then record { status = runnable; running = false; addr_space = none }
      else contexts n;
  current_context = some 48;
}

waiting_runs-IsReady : IsReady waiting_runs 48 16
waiting_runs-IsReady = record {
  unlocked = refl;
  no_guard = refl;
  is_current = refl;
  is_idle = refl;
  distinct = (refl, (refl, (refl, tt)));
}

exit_current-Exited_example :
    (next : ℕ) × (s' : Cpu) × (exit_current waiting_runs ≡ done s') × Exited waiting_runs s' 48 next
exit_current-Exited_example =
    exit_current-Exited waiting_runs 48 16 waiting_runs-IsReady refl refl (λ e. omega (arith, e))

-- Registers that tell which context they belong to.
abbrev core : Core
core = record { reg = λ f. 100 + index f; x2 = 0; saved = λ n f. n * 1000 + index f }

switch_to_inner_resumes_example :
    (switch_to_inner 32 16 (switch_to_inner 16 32 core)).reg x19 ≡ core.reg x19
switch_to_inner_resumes_example =
    switch_to_inner_resumes 16 32 32 core (switch_to_inner 16 32 core) (λ e. omega (arith, e))
      (λ e. omega (arith, e)) refl x19
