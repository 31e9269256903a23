-- ===== src/Lib.antt =====
-- A model of the ECE391 MP3 kernel: a small x86 operating system with a read-only file system, three
-- text terminals, a real-time clock, and processes that each run in a 4 MB page. Paths are from the
-- root of the repository.
--
-- The parts, and the code that each file follows:
--   Base           numbers, tests, bytes of memory, and the lemmas that the parts share
--   Str            student-distrib/lib.c: strlen, strncmp, strcpy, strncpy
--   Block          student-distrib/lib.c: memset, memset_word, memset_dword, memcpy, memmove, with the
--                  phases of their assembly
--   Numeral        student-distrib/lib.c: itoa, strrev
--   Screen         student-distrib/lib.c: clear, reset, putc, puts, backspace_helper, vert_scroll,
--                  and the cursors and video pages of the three terminals
--   FileSystem     student-distrib/file_system.c and file_system.h: the image (boot block, inodes,
--                  data blocks), the directory look-up, read_data, and the file and directory drivers
--   Pic            student-distrib/i8259.c and i8259.h: the interrupt masks and the bytes sent
--   Rtc            student-distrib/rtc.c and rtc.h: the clock's rate, its interrupt, its driver
--   Keyboard       student-distrib/keyboard.c and keyboard.h: scan codes, modifiers, line buffers
--   Terminal       student-distrib/keyboard.c: terminal_read and terminal_write, on those buffers
--   Printf         student-distrib/lib.c: printf
--   Scheduler      student-distrib/syscall_handler.c: pit_int and initialize_pit
--   Kernel         student-distrib/syscall_handler.c: fd_t, pcb_t, the process tables; the state that
--                  the system calls work on
--   Descriptors    student-distrib/syscall_handler.c: open, close, read, write, and the jump tables
--   Process        student-distrib/syscall_handler.c: execute, halt, execute_shells, get_next_pid,
--                  return_to_user, getargs, vidmap, set_handler, sigreturn
--   Idt            student-distrib/idt.c, idt.h and x86_desc.h: the gates of the interrupts
--   Exceptions     student-distrib/ex_handler.c: the handlers of the processor's exceptions
--   Entry          student-distrib/kernel.c and x86_desc.h: the multiboot information, the segment
--                  descriptors, and the initialisers in their order, up to the first shells
--   Programs       syscalls/ece391cat.c, ls, hello, shell, counter, testprint, pingpong, grep and syserr,
--                  over an interface of the system calls; OnKernel fills it with the kernel's functions
--                  behind the assembly of student-distrib/int_wrapper.S
--   Support        syscalls/ece391support.c: the string and number functions of the user programs
--   Paging         student-distrib/paging.c and paging.h: the page directory and the page tables
--
-- How state and operations correspond. Memory is a function from addresses to bytes (Base.Mem); a C
-- function that takes pointers takes addresses here and returns the new memory. Static variables of a
-- file are the fields of a record (Screen, Ports, Rtc, Keyboard, Scheduler, Tables), and the record
-- Kernel puts these together for the system calls. A process control block is the fields at its
-- number; its arguments and all buffers are bytes of the memory. A byte
-- written to a port is an entry of the list of what was sent, in order; a byte read from a port is an
-- argument. `int` values that can be negative are of the type ℤ of Base.Int; a `uint32_t` is a
-- natural number with its wrap-around written out. A function of the model has the name of the C
-- function; but Pic.init is i8259_init, the system calls open, close, read and write are sys_open and
-- so on, and timer is pit_int on the whole state; main of a user program has the name of the program.
-- A loop is a function of its own, named for it.
--
-- Bounds and fuel. A loop on a string runs on Str.scan_limit = 2 ^ 32 rounds, the number of addresses
-- there are, and a result `none` is a string that never ends; theorems on strings show that the
-- loops return. itoa has 32 rounds, one for each binary digit of a `uint32_t`; the halving loop of
-- the clock's rate has 32 as well. Loops that count run on their own number of rounds. Waiting for
-- the clock, and for Enter, runs on the list of what happens between the tests of the flag; a result
-- `none` is a process that still waits at its end. get_next_pid has a round for each of the 6 places,
-- and close, open and the timer one for each descriptor or process. The endless loops of the user
-- programs have rounds too, and `none` is a program that still runs.
--
-- Parts that use others: FileSystem uses Str to compare names and Screen uses Block to copy pages;
-- Rtc uses Pic to mask its line; Keyboard prints by Screen and acknowledges by Pic; Terminal waits for
-- Keyboard; Scheduler maps pages by Paging. Descriptors calls the drivers of Rtc, Terminal and
-- FileSystem by the jump table of a descriptor; Process looks programs up and loads them by FileSystem,
-- maps them by Paging, closes by Descriptors and prints by Printf. Process.Steps puts the system calls
-- and the timer together as the steps of one system: a call is one step, which no interrupt divides,
-- and a user program is what happens between the steps. Theorems about a part use the theorems of the
-- parts below it. Entry composes the initialisers of the devices with execute_shells; Programs uses
-- Support for strings, and Programs.Verdicts runs syserr on the system calls of Descriptors and Process.
--
-- Not modelled: the assembly (boot.S, x86_desc.S, ex_wrapper.S, and int_wrapper.S but for its test of the
-- number of a call), which saves registers and calls the handlers; the words that inline assembly pushes on the kernel stacks, so that
-- a jump to user code is an outcome with its address, and a return from halt is one of the parent's
-- execute; tests.c, which prints; syscalls/ece391sigtest.c, a program for signals, which the
-- kernel does not have; and the emulation of the system calls on a Linux host, with the demonstration
-- that runs on it.
-- Addresses do not wrap around at 2 ^ 32; of the page directory, the page of the process is translated
-- and the kernel's addresses are physical; memory behind an unmapped address is not told apart from
-- other memory, and a buffer is translated at its first byte.
-- The process control blocks are fields apart from the memory, but for the arguments. The kernel does
-- not bound the pointers that read, getargs and execute write through: a write that reaches a block or
-- the tables of processes in the machine leaves them as they are here. What is said of these tables and
-- of descriptors is for programs whose pointers do not reach them.
pub mod Base
pub mod Str
pub mod Block
pub mod Numeral
pub mod Screen
pub mod FileSystem
pub mod Pic
pub mod Rtc
pub mod Paging
pub mod Keyboard
pub mod Terminal
pub mod Scheduler
pub mod Printf
pub mod Kernel
pub mod Descriptors
pub mod Process
pub mod Idt
pub mod Exceptions
pub mod Programs
pub mod Entry
pub mod Support
