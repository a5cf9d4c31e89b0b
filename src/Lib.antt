-- ===== src/Lib.antt =====
-- A verification library for mikanOS, a kernel in C++. Paths are from the repository's root.
--
-- Memory: the bitmap of physical frames of src/kernel/memory_manager.hpp and memory_manager.cpp.
--   `alloc_map` is a function from line numbers to 64-bit lines, so the end of the C++ array is not
--   modelled. `Allocate` is `allocate`, `Free` is `free`, `MarkAllocated` is `mark_allocated`,
--   `Stat` is `stat`; the outer loop of `Allocate` is `allocate_from` on fuel, and its inner loop is
--   `scan`. Each round of the outer loop but the last goes past a frame of the range, so
--   `range_end + 1` rounds are enough; `none`, the end of the fuel, is never reached. Frame numbers
--   are `size_t`: sums are taken modulo 2^64. Memory.Boot adds src/kernel/memory_map.hpp and the
--   start: `InitializeMemoryManager` is `initialize_memory_manager`, on the list of descriptors
--   that the loader leaves.
-- Error, Message: src/kernel/error.hpp and src/kernel/message.hpp, which the other parts use.
-- Task: src/kernel/task.hpp and task.cpp. A `Task*` is the id of the task; the tasks are a list, as
--   in `tasks_`, and `running_` is a function from levels to queues of ids. An operation that C++
--   leaves undefined, such as `front()` of an empty queue or a pointer to a task that is gone, is
--   `none`. `SwitchContext` and `RestoreContext` are not functions that return: an operation that
--   ends in one returns beside the new state the task or the context that goes on. A loop that
--   sleeps, as in `WaitFinish`, is one round of the loop. `RotateCurrentRunQueue` is
--   `rotate_current_run_queue`, `ChangeLevelRunning` is `change_level_running`, and the constructor
--   is `init_manager`. A history of the scheduler is a sequence of complete calls; Task.History
--   has the calls and the states that they lead to. A call that the timer interrupt cuts in two, where
--   a caller leaves interrupts on (src/kernel/main.cpp, src/kernel/terminal.cpp,
--   src/kernel/keyboard.cpp), is not modelled.
-- Timer: src/kernel/timer.hpp and timer.cpp. The priority queue is a list in the order of timeouts.
--   `Tick` is `tick`; its loop is `tick_loop`, on fuel for one round per timer and one more, which
--   is enough because a timer that a round puts in is not due. `LAPICTimerOnInterrupt` is
--   `on_interrupt`.
-- Layer: src/kernel/layer.hpp and layer.cpp. A `Layer*` is the id of the layer; the stack is a list
--   of ids from the bottom up. `UpDown` is `up_down`, `Hide` is `hide`, `Activate` is `activate`,
--   `CloseLayer` is `close_layer`; what they draw is a list of requests. `none` is the use of a null
--   pointer, also that `UpDown` would put one into the stack. `UpDown` uses an iterator behind an
--   element that it has erased; it is the index that it stood for.
-- Usb: `ArrayMap` of src/kernel/usb/arraymap.hpp is a list of slots, `Get`, `Put` and `Delete` are
--   `get`, `put` and `delete`. The ring of src/kernel/usb/xhci/ring.cpp is an address and a function
--   from indices to blocks of four words; `Initialize` is `initialize`, `Push` is `push`.
--   Usb.Memory is src/kernel/usb/memory.cpp: `AllocMem` is `alloc_mem`. Usb.Xhci is the bring-up of
--   the ports of src/kernel/usb/xhci/xhci.cpp, with src/kernel/usb/xhci/devmgr.cpp: a `Controller` has
--   the phases of the ports, `addressing_port` and the devices by slot. The functions of xhci.cpp have
--   their names; the three `OnEvent` are `on_port_status_change`, `on_transfer` and
--   `on_command_completion`. What the code reads from a port, or from a context that the controller
--   writes, is an argument of each step (`Readings`), and what it asks of the controller a list of
--   requests. The loop over the ports after an address has one round for each of the 256 ports.
--   That the pool of `AllocMem` runs out while a device gets its memory is not modelled.
-- Keyboard: src/kernel/usb/classdriver/hid.cpp and keyboard.cpp, and src/kernel/keyboard.cpp.
--   `OnInterruptCompleted` is `on_interrupt_completed`, `OnDataReceived` is `on_data_received`; the
--   observer that `InitializeKeyboard` sets is `key_message`, sent by `send_keys`. A `std::bitset` is a
--   function to Booleans.
-- Fat: src/kernel/fat.hpp and fat.cpp. The image in memory is a `Volume`: the file allocation table, of
--   `fat_entries` entries, the bytes of each cluster, and each cluster read as directory entries. A
--   pointer to an entry is a cluster and an index, a C string the list of its bytes. `ExtendCluster`
--   is `extend_cluster`, `AllocateClusterChain` is `allocate_cluster_chain`, `FindFile` is
--   `find_file`, `AllocateEntry` is `allocate_entry`, `CreateFile` is `create_file`, `SetFileName`,
--   `NameIsEqual`, `ReadName` and `FormatName` are the functions of these names. `Read`, `Write` and
--   `Load` of `fat::FileDescriptor` are `read`, `write` and `load`; the entry that a descriptor
--   refers to is an argument and a result. The search for a free cluster has a round for each entry
--   of the table, a walk through a chain has one for each entry, a copy loop one for each byte.
--   `none` is a search past the table, a chain that does not end, or a path element that does not
--   fit its array.
-- Paging: src/kernel/paging.hpp and paging.cpp. A pointer to a table or a page is the number of its
--   frame; `Pages` has the memory manager, the 512 words of each frame, in the fields of
--   `PageMapEntry`, and the frame in `CR3`. `data_of` and `entry_of` go from the fields to the word
--   and back, and a byte of a frame is `byte_at`. The processor's walk is `frame_of`, which is `none`
--   on a page fault: an access of the kernel that faults leads nowhere. `SetupPageMap`, `CleanPageMap` and
--   `CopyPageMaps` call themselves for the level below; their loops go through 512 entries at most.
--   `HandlePageFault` is `handle_page_fault`; `Load` of the file of a mapping is its parameter.
-- Terminal: of src/kernel/terminal.cpp the pipe and the argument vector. `Read`, `Write` and
--   `FinishWrite` of `PipeDescriptor` are `read`, `write` and `finish_write`; the loop of `Read` goes
--   over the messages of the reader's task, and where none is left it waits: it looks again when a
--   message has come. The loop of `Write` has a round for each byte at most. `MakeArgVector` is
--   `make_arg_vector`; its loop has a round for each character, and `isspace` is a parameter. The
--   writes to `argbuf` are the list of what has been written, also past its end.
-- Syscall: of src/kernel/syscall.cpp `OpenFile`, `ReadFile` from a file of the volume, `MapFile`,
--   `DemandPages`, `ReadEvent` and `CreateTimer`, as functions of the current task, its files and its messages; `AllocateFD` is
--   `allocate_fd`. `O_CREAT` of the C library is a parameter, and so is the size of a file in
--   `MapFile`. Where no message is left and no event stored, `ReadEvent` sleeps, as the pipe does.
-- Bits has what the 64-bit masks do to single bits; Prelude has the shared names, Boolean tests,
-- lists, `std::map` as an association list, and calls that return.
--
-- Not modelled: the rest of the drivers, the descriptor tables and the interrupt entry, which are
-- input and output of hardware; graphics, windows, fonts and the console, which write pixels; the
-- static identity table of paging; the window of the terminal and its commands, and the loading of
-- ELF files; the system calls that draw or pass their arguments on; the applications. Of a task
-- `stack_`; its `files_` stand beside it in Syscall, not in the task. That memory may run out when a queue grows.
pub mod Prelude
pub mod Bits
pub mod Error
pub mod Memory
pub mod Message
pub mod Task
pub mod Timer
pub mod Paging
pub mod Layer
pub mod Usb
pub mod Keyboard
pub mod Fat
pub mod Terminal
pub mod Syscall
