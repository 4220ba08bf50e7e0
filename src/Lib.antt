-- ===== src/Lib.antt =====
-- nulix, a kernel for i386: a model of its memory allocator, its drivers for keyboard and screen,
-- its lock and its C library, and what they promise.
--
-- The parts, and the files of the repository that they model:
--
--   Kpm        kernel/memory/kpm.c, include/kernel/kpm.h: the physical memory allocator, a buddy
--              system of 11 orders of bitmaps over page frames. Kpm.Bitmap and Kpm.Align are the
--              macros on bits and addresses, Kpm.Buddy the allocator's state, Kpm.Update
--              kpm_update_order and the loops over all orders, Kpm.Region kpm_enable, kpm_disable,
--              kpm_isenabled and kpm_isalloc, Kpm.Alloc kpm_alloc and kpm_free, Kpm.Init kpm_init,
--              and Kpm.Trace the callers of kpm_alloc and kpm_free.
--   Keyboard   kernel/keyboard/, include/kernel/keyboard.h: Keyboard.Keycode, Keyboard.Scancodes,
--              Keyboard.Fr and Keyboard.Us104 are the tables, Keyboard.State the state and KBD_getchar,
--              Keyboard.Driver KBD_getevent and KBD_geteventbytype. Keyboard.Strokes, Keyboard.Held and
--              Keyboard.Letters say what they mean.
--   Screen     kernel/screenbuf.c, include/kernel/screenbuf.h: the circular text buffer. Screen.Buffer is
--              its state, its pointer arithmetic and sb_sync, Screen.Output scrolling and writing; the other modules are about them.
--   Commands   kernel/nsh/builtins/: Commands.Memory has alloc and free, Commands.Screens next and prev,
--              Commands.Settings color, keymap, interrupt and info, Commands.Dump hexdump;
--              Commands.Entry the screens of kernel/kernel.c and rows of commands on them, about which
--              Commands.Fit and Commands.Session are.
--   Machine    kernel/gdt.c and kernel/idt.c in Machine.Gdt, with Machine.Segments, and Machine.Idt, kernel/pic_8259.c in
--              Machine.Pic, kernel/boot_init.c and kernel/memory/paging.c in Machine.Paging.
--   Nsh        kernel/nsh/nsh.c, include/kernel/nsh.h: the shell. Nsh.Builtin is the table of commands,
--              Nsh.Line the line and its splitting, Nsh.Shell what a key does; Nsh.Words, Nsh.Split,
--              Nsh.Typed, Nsh.Complete, Nsh.Edit and Nsh.Dispatch say what that means.
--   Print      kernel/print.c: Print.Number is snprintnum, Print.Format vsnprintf, Print.Kprintf kprintf
--              on a screen; Print.Digits and Print.ReadBack are about the digits.
--   Rtc        drivers/rtc/rtc.c: Rtc.Time has the arithmetic on times, Rtc.Reading the reads of the
--              clock, Rtc.Calendar the calendar to count by, Rtc.Registers how a clock shows a
--              time, Rtc.Still a clock that stands still.
--   OldShell   kernel/shell.c, the shell before nsh.
--   Spinlock   kernel/spinlock.c, and the threads that share a lock; Spinlock.Progress is about the
--              wait for it.
--   Stdlib     lib/std: strtol, strtoll, strtoul, strtoull and atoi in Stdlib.Strtol, against the numerals
--              of Stdlib.Numeral and the written numbers of Stdlib.Written; abs and bsearch in Stdlib.Helpers.
--   Cstring    lib/string: mem.c in Cstring.Memory and str.c in Cstring.Text.
--   Common     lists, tests and bits that the other parts share.
--
-- The shell (kernel/nsh/nsh.c) reads the keys of Keyboard, keeps its line in a memory of Cstring,
-- and prints, scrolls and runs commands through the interface `Console` of Nsh.Line, a record of
-- functions on a state of the caller's choice. The commands are functions on the states of Kpm,
-- Screen and Keyboard, with words read by Stdlib: alloc on the allocator and the chunks that its
-- callers hold, next and prev on the array of screens that kernel_main has set up, hexdump on a
-- memory. kprintf joins Print and Screen.
--
-- How the code is modelled. Numbers are natural numbers; a word of w bits has its wrap-around
-- written out, and a signed value is a word in two's complement. Structures are records, and a
-- function that changes one returns the new one. A write out of a list's range changes nothing, and
-- the theorems have hypotheses or invariants that rule it out. A pointer into an area is an offset
-- into it; in Cstring the memory is a function from addresses to bytes. In Kpm the bitmaps are
-- separate lists of bytes, and the addresses of the kernel's image, which the linker sets, are
-- arguments. Where C leaves the overflow of a signed product undefined, in kpm_alloc for blocks
-- from 2 GiB on and in rtc_get_timestamp from 2039 on, the model has the product that wraps, which
-- the instruction for it gives. The memory at VGA_PTR and the hardware cursor are fields of a
-- screen while an operation works on it, and Commands.Screens hands them from one screen to the
-- next.
--
-- Loops. `update_from` of Kpm runs on fuel: as many rounds as its limit are enough, since each
-- round moves its base up. A loop over orders has 11 rounds, and one over the bits of a byte 8. The
-- loops of sb_addline have a round for each line and one more, since a round moves by the whole
-- buffer; those of sb_tabulation have 4, since a stop is at most 4 columns away; that of
-- sb_backspace has 80. The loops of str.c to the end of a string have fuel as an argument, and the
-- theorems ask for more of it than the string has bytes. The length of a number takes 32 rounds at
-- most, since its base is at least 2. The wait of KBD_geteventbytype goes through the bytes of the
-- data port. The wait of rtc_read_time and its rounds run on fuel, and end two rounds after the
-- clock stands still. The loops of nsh_createcmd have fuel that the theorems ask to be more than
-- the line has bytes; a zero in the line would keep it in its loop for ever, and the line has none.
-- The loop of alloc has a round for each page asked for, and one to end, since a chunk has a page
-- at least; that of hexdump one for each whole row.
--
-- Not modelled: start-up in assembly, the instructions for ports, the handlers of interrupts, the
-- order of the initialisations in kernel_main, the texts that commands print about the machine,
-- reboot and poweroff, the joining of the shell's interface with the commands, and the tests of the
-- libraries.
pub mod Common
pub mod Commands
pub mod Cstring
pub mod Keyboard
pub mod Kpm
pub mod Machine
pub mod Nsh
pub mod OldShell
pub mod Print
pub mod Rtc
pub mod Screen
pub mod Spinlock
pub mod Stdlib
