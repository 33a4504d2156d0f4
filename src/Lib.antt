-- ===== src/Lib.antt =====
-- A model of the kernel of tiny-kernels, a small operating system in C for the Yalnix simulator, and
-- theorems on it. The kernel keeps its processes (PCBs) on queues, shares the processor between them
-- at clock interrupts, allocates physical frames and maps them into page tables, and serves system
-- calls. Definitions stand for functions of the source under their names in snake_case.
--
-- The files, with the source they model:
-- - Queue.antt: src/queue.c, src/include/queue.h. Linked queues on an explicit heap. Each function has
--   its own: queue_create (queueCreate), queue_enqueue, queue_dequeue, queue_remove, queue_iterate,
--   queue_delete, is_in_queue, is_empty. Queue/Seg says when a chain of nodes is a queue of processes;
--   Queue/Enqueue, Dequeue, Unlink, Remove, Lookup, Iterate and Delete have the lemmas of each operation.
-- - Hardware.antt: .yalnix/include/hardware.h and src/include/kernel.h, constants and page table entries.
-- - Memory.antt: src/mem.c, src/include/mem.h. The frame table with its counter, region 0, and the copy
--   of frames. Memory/Frames is about frames, Memory/Tables about page tables and CloneFrame.
-- - KernelBrk.antt: SetKernelBrk of src/kernel.c. KernelBrk/Grow and Shrink are about its two loops,
--   KernelBrk/Main about the whole function.
-- - Kernel.antt: src/include/proc.h, the globals of src/proc.c and src/kernel.c, and KCSwitch. Here a
--   queue is the list of its processes. Kernel/Scheduling has lemmas on PCBs and queues, Kernel/Switching
--   is about KCSwitch, and Kernel/UserBytes has the writes through a page table.
-- - Process.antt: src/syscalls/process.c and deletePCB of src/proc.c: exit, wait, get_pid, delay. What
--   follows the switch in Wait is wait_resumed. Process/Status is about the exit status that Wait stores;
--   Process/Reap, Exits, Waits and Sleep have the other proofs.
-- - UserMemory.antt: the page table of region 1. CopyPT (copy_pt) of src/mem.c, Brk (brk) of
--   src/syscalls/process.c, growStack (grow_stack), CheckBuffer (check_buffer), MemoryTrapHandler,
--   MathTrapHandler and IllegalInstructionTrapHandler of src/traps/trap.c. UserMemory/Lowering is about
--   the second loop of Brk, UserMemory/Buffers about CheckBuffer, and UserMemory/Pages, Rollback,
--   StackLoop and StackGrowth are about growStack. UserMemory/Keeping says what frames in use keep, and
--   UserMemory/Copying with its children Round and Loop is about CopyPT, UserMemory/Raising with
--   its children Round and Main about Brk where it raises the break.
-- - Terminals.antt: TtyWrite and BeginTtyTransmit of src/syscalls/tty.c and TtyTrapTransmitHandler of
--   src/traps/trap.c, over the kernel with its terminals. Terminals/Transmission is about the bytes sent,
--   Terminals/HandOver about the end of a write. Terminals/Reading.antt: TtyRead and
--   TtyTrapReceiveHandler; Terminals/Reading/Delivery is about the bytes of one reader,
--   Terminals/Reading/Serving with its child Loop about the whole handler.
-- - Creation.antt: allocNewPCB and getFreePCB of src/proc.c, the kernel stack tables and KCCopy of
--   src/kernel.c, and Fork of src/syscalls/process.c (fork, and fork_resumed from the switch on).
--   Creation/Slots is about getFreePCB, Creation/KernelStacks about KCCopy, and Creation/Forking with
--   its children Parent and Child about Fork, on both sides.
-- - Clock.antt: ClockTrapHandler and trapHandlerHelper of src/traps/trap.c. Clock/Ticks is about one
--   tick, Clock/Delays about several, Clock/Rotation about the whole handler.
-- - Program.antt: LoadProgram of src/kernel.c (load_program) and Exec of src/syscalls/process.c (exec).
--   Program/FlatMemory and its child Blocks are about the bytes that a write through a page table
--   changes, and Program/Arguments with Copying and Stack about the arguments on the new stack.
--   Program/Region1 is about the loop that maps the pages of a segment, its child
--   Emptying about the one that throws the old pages away, and Building about the whole new region 1.
-- - SystemCall.antt: KernelTrapHandler of src/traps/trap.c, the dispatch of the system calls, and what is
--   left of a call when its process gets the processor back (handler_resumed). SystemCall/TtyRead is about
--   TtyRead from end to end, SystemCall/Refusals about the calls that halt the machine.
-- - Start.antt: InitializeVM, EnableVM and InitializeFreeFrameList of src/init.c. Start/Region0 is about
--   the page table of region 0, Start/FrameList about the table of the frames. Start/Boot has
--   KernelStart of src/kernel.c with the rest of what it calls, of src/init.c and src/proc.c.
-- - Prelude.antt: lists and numbers, and the monad of Prelude/Run in which all of these are written.
-- - Tests.antt: the theorems at concrete inputs.
--
-- How code is modelled:
-- - A piece of code is a function from a state to a Run: it returns a value and a state, halts the
--   machine, faults (a NULL or freed pointer, an index out of an array), or has used up its fuel.
-- - Loops over linked nodes take fuel, one unit for each round; the theorems on them say that more
--   fuel than the queue has nodes is enough, and that the code then returns. The second loop of Brk takes
--   fuel too, since it need not end. The loops of SetKernelBrk recur on the number of pages between the
--   break and its target, and need no fuel.
-- - malloc is not the kernel's: the functions of Queue.antt take its result as an argument, and the
--   kernel's state has the sequence of its results. A call may raise the break of the kernel's heap
--   through SetKernelBrk, and so take frames and map pages of region 0: what the n-th call does to the
--   memory is a parameter too, `heap`. In Kernel/Scheduling, NeverFails says that malloc does not fail,
--   StaysPut that it does not move the break, and HasMemory both. The pids of helper_new_pid are a
--   sequence in the same way. Where a theorem supposes any of this, or that an address is a new one, it
--   says so.
-- - The memory of a process is what its page table makes of the frames: the byte at an address of a
--   valid page is the one in its frame. A write goes through the table; to a page that is not readable
--   and writable it faults. So it is with a write of the kernel through a pointer of a process: one to
--   an address outside of region 1 counts as a fault, although the machine lets the kernel write to its
--   own memory there.
-- - An address or a frame number is a natural number; arithmetic on 32-bit addresses is written out
--   modulo 2 ^ 32, and a frame number is cut to the 24 bits of a page table entry where it is stored.
-- - The machine is state: the values written to its registers are recorded, and a kernel context says
--   where the code of a process that is not running goes on. A call that gives the processor away ends
--   with the result `switched`.
-- - TracePrintf is left out.
--
-- Not modelled: src/syscalls/pipe.c, src/syscalls/synchronization.c and src/syscalls/miscellaneous, which
-- hold no code but comments; user, whose programs run on the kernel; sample, which comes with the
-- simulator. What LoadInfo reads of a file, and the machine itself (.yalnix), are not the
-- kernel's: they are arguments and state.
pub mod Prelude
pub mod Queue
pub mod Hardware
pub mod Memory
pub mod KernelBrk
pub mod Kernel
pub mod Process
pub mod UserMemory
pub mod Creation
pub mod Program
pub mod SystemCall
pub mod Start
pub mod Clock
pub mod Terminals
pub mod Tests
