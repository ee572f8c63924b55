-- ===== src/Lib.antt =====
-- A model of parts of ProjectsDemonstration, a repository of three systems programs in C: an
-- operating system kernel (OSkernel/kernel, over the library OSkernel/abstract-machine), the
-- emulator NEMU (Emulator/nemu) and a coroutine library (Coroutine/libco).
--
-- Base is shared: names of the library, Boolean tests on numbers, cases lemmas, lists with
-- `length`, `get_or` and `set` over native numbers, and functions with a changed point. Word has
-- machine words as numbers: `bit`, `ctz`, `mask` (the MASK of OSkernel/kernel/include/pmm.h).
--
-- Pmm models the physical memory manager, OSkernel/kernel/src/pmm.c with
-- OSkernel/kernel/include/pmm.h and the raw spinlock of OSkernel/kernel/src/unsafe_spinlock.c.
-- Pmm/Layout has the macros (PAGE_SZ, NUM_BITMAP, UP_POW2) for both pointer widths, Pmm/Page a page
-- header with `init_page`, `loc`, one round of the search of `kalloc_unsafe` (`try_page`, `scan`)
-- and the switch of `kfree_unsafe` (`give`), Pmm/Heap the state and the entry points `pmm_init`,
-- `kalloc` and `kfree`. Memory is a map from addresses to page headers, so that pages that were
-- never set up hold anything; pointers are numbers below 2 ^ width and their arithmetic wraps. The
-- files below Pmm/Heap, Pmm/Page and Pmm/Layout hold the proofs: Pmm/Heap/Chain says what a heap in
-- order is. Its ghost state `Pages` names the number of pages and the CPU each page belongs to.
-- Where C leaves a value open (`__builtin_ctz(0)`, `1 << k` that is no int) the model takes it
-- from the parameter `Undefined`. A call is one step that no other CPU interrupts: a lock that is
-- held is a result `waits`, and so is not resolved. The search along a list takes fuel, a
-- round for each page that was ever set up; `kalloc` is shown to return with it, so it is enough.
--
-- Irq models OSkernel/kernel/src/os.c: the ring of interrupt handlers with `check_seq`, `os_on_irq`
-- and `os_trap`, over a memory of wrappers; Irq/Ring relates it to a list of addresses. What
-- `pmm->alloc` returns for a new wrapper is an argument of `os_on_irq`. The loops take fuel, and
-- any fuel above the number of handlers is shown to be enough.
--
-- Kmt models OSkernel/kernel/src/kmt.c with OSkernel/kernel/include/common.h: the state and the
-- spinlocks over `pushcli` and `popcli` in Kmt, the doubly linked queue of tasks in Kmt/Queue with its
-- relation to a list in Kmt/Queue/Ring, and the interrupt handlers `kmt_context_save` and
-- `kmt_schedule` in Kmt/Schedule; `interrupt` is the two in the order in which `kmt_init` registers
-- them and `os_trap` calls them. Each call is a step of one CPU; a lock that another CPU holds gives
-- `spins`, and a lock that the CPU itself holds gives `deadlocks`, for the endless loop in the code.
-- `kmt_schedule` takes fuel for its two loops, and any fuel above the length of the queue is shown
-- to be enough. The counter of nested brackets is a number that does not overflow.
--
-- Str models OSkernel/abstract-machine/libs/klib/src/string.c over a memory of bytes: Str the
-- functions, Str/Copy, Str/Fill, Str/Compare and Str/Order what they do. The loops of `strlen`, `strcpy`,
-- `strcat` and `strcmp` take fuel, and any fuel above the lengths of the strings is shown to be
-- enough.
--
-- Nemu models the emulator Emulator/nemu for x86. Nemu has the state, a record of the registers, of the
-- instruction that is decoded, of the host's memory and of the maps, and `Run`, a step that returns
-- a value and a state or fails; it fails where the code fails an assertion, panics or does what C
-- leaves undefined. Nemu/Rtl has the arithmetic of Emulator/nemu/include/rtl on numbers below 2 ^ 32,
-- Nemu/Memory the physical memory, the maps and the ports (Emulator/nemu/src/memory/memory.c and
-- Emulator/nemu/src/device/io), Nemu/Paging the page tables (Emulator/nemu/src/isa/x86/mmu.c), Nemu/Reg the
-- registers, the stack and the flags (Emulator/nemu/src/isa/x86/include/isa), Nemu/Decode the decoding
-- (Emulator/nemu/src/isa/x86/decode) and Nemu/Exec the instructions, the opcode table, interrupts and
-- `exec_once` (Emulator/nemu/src/isa/x86/exec and intr.c beside it, Emulator/nemu/src/cpu/cpu.c). Nemu/Loop
-- has the loop over `exec_once` (Emulator/nemu/src/monitor/cpu-exec.c), with the devices as a parameter, and
-- Nemu/Watch the pool of watchpoints (Emulator/nemu/src/monitor/debug/watchpoint.c), with the value of an
-- expression as a parameter and fuel for the 32 nodes of the pool, one more where the walk goes past the last. A
-- function of the code is a function of the same name in lower case; the pointer `pc` of the
-- decoding is always the field `seq_pc`. The callback of a device is a function on the memory of the host.
-- The files below these have the proofs, with `Ends` of Nemu/Steps to say that a step returns and what
-- holds then, and `IsStack` of Nemu/Reg/Stack for a stack that holds a list. `isa_exec` takes fuel, a unit
-- for each byte of the opcode, because the prefix 0x66 runs it again; two units are enough
-- without the prefix.
--
-- Not modelled: output by printf, the framework code of OSkernel/abstract-machine/am, the
-- applications and tests in OSkernel/abstract-machine, which are programs of others, the devices,
-- the debugger's commands and expressions and the other instruction sets of NEMU, and
-- the coroutine switch, which is assembly.
pub mod Base
pub mod Irq
pub mod Kmt
pub mod Nemu
pub mod Pmm
pub mod Str
pub mod Word
