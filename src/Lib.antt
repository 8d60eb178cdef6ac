-- ===== src/Lib.antt =====
-- SkipOS: a model of the kernel's C code, and the theorems about it.
--
-- The program. SkipOS is a small x86-64 kernel under core/. At start-up kernel_main.c sets up the
-- serial port, the interrupts, the page frame allocator, the heap and the keyboard. The parts call
-- each other directly: printk writes to the screen and to the serial port, the serial port
-- registers its handler with the interrupt table and enables its line at the interrupt controller,
-- and everything stops the machine through `assert` when a condition fails.
--
-- The files, and the code they are about.
--   Common             shared: Booleans and lists over native numbers (Logic, Lists), 64-bit words
--                      and a word memory (Words), and runs that `assert` may stop (Outcome,
--                      core/inc/assert.h).
--   PfAlloc            core/src/pf_alloc.c: is_empty, add_elem, pop_elem, add_new_upper_pages,
--                      MMU_pf_alloc (pf_alloc) and MMU_pf_free (pf_free) on a memory of words, as
--                      the code walks it. PfAlloc/Boot has MMU_init_pf (init_pf) and all it calls.
--                      PfAlloc/Spec is the abstract pool, a stack of frames; PfAlloc/Refine relates
--                      the two; PfAlloc/Ownership is about sequences of calls; PfAlloc/Progress is
--                      about when a call gives a page; PfAlloc/Elsewhere is about the words that
--                      the calls leave alone, and PfAlloc/Supply about how many frames are left.
--   VpAlloc            core/src/vp_alloc.c: MMU_init_vp (init_vp), MMU_alloc_pages (alloc_pages),
--                      MMU_free_pages (free_pages), page_fault_handler and what they call, on page
--                      tables in the same memory. VpAlloc/Tables reads the tables as a state of each
--                      page, and says what each frame is for; Paths, Link, Frames, Entry and Unlink
--                      are about single changes of the tables, Grow and Demand about
--                      alloc_virtual_page, Free about a round of MMU_free_pages, and Pages, Release,
--                      Fault, Handler, Init and Physical about whole calls. VpAlloc/Space is the
--                      abstract heap, states of pages alone, and Steps and Sequence relate the two.
--   CString            core/src/string.c: memset, memcpy, strlen, strcpy, strcmp, strchr on an area
--                      of bytes; the laws are in CString/Laws.
--   Ports, Pic         core/src/port_io.c and core/src/pic.c. The instructions `in` and `out` are
--                      fields of the record Ports, on which every driver depends.
--   Interrupt          core/src/interrupt.c: IRQ_init (init), the descriptor table, the handler
--                      table, isr_helper, the masks (IRQ_enable_index, IRQ_disable_index,
--                      IRQ_is_enabled) and IRQ_end_of_interrupt. Interrupt/Handlers has the handlers
--                      of the file itself.
--   Serial             core/src/serial.c: the ring (produce, consume), SER_write (write), SER_flush
--                      (flush), init_hw_write, ser_irq_handler and SER_init (init). Serial/Queue
--                      reads the ring as a queue, Serial/Output is about what a call sends, and
--                      Serial/Session about sequences of calls and interrupts.
--   Kmalloc            core/src/kmalloc.c: kmalloc, kfree, get_best_pool, add_page, kmalloc_init, on
--                      a word memory and the array of pools. The pages come through the record
--                      PageSource, with its laws in Kmalloc/Pages; Kmalloc/Chunks is about the free
--                      lists, Kmalloc/BestPool about the choice of a pool, Kmalloc/NewPage about
--                      add_page, Kmalloc/Blocks about a chunk that is taken or given, and
--                      Kmalloc/Calls about whole calls. Kmalloc/Source fills the record with VpAlloc,
--                      and Kmalloc/Init is about kmalloc_init.
--   Vga                core/src/vga.c: VGA_display_char (display_char), VGA_display_str, the
--                      backspace, clearing and scrolling, on a record of the file's globals.
--   Printk             core/src/printk.c: the printing of numbers, characters and strings, as the list
--                      of the calls of display_char and display_str; printk itself (printk) is in
--                      Printk/Format, with its arguments as a list. Printk/Console has display_char
--                      and display_str, on the screen of Vga and the ring of Serial.
--   ScanCode           core/src/scan_code.c: char_from_scode.
--   Keyboard           core/src/keyboard.c: KBD_init (init) and what it calls over the ports, and
--                      kbd_isr_handler. Keyboard/Keys reads a stream of bytes as keys, and keys as
--                      edits of the screen; Keyboard/Stream is about the handler over a stream,
--                      Keyboard/Typing about a text that is typed, Keyboard/Setup about the
--                      configuration byte and the bytes that are sent again, Keyboard/Init about
--                      KBD_init on a keyboard that answers.
--   Gdt                core/src/gdt.c: GDT_init (init), the descriptors and the task state segment;
--                      Gdt/Layout reads them as the processor does.
--   KernelMain         core/src/kernel_main.c: the start of the memory (start_memory), MMU_init_pf and
--                      then MMU_init_vp on what it leaves; KernelMain/Tags says what the tags hold.
--
-- State is passed along explicitly: a memory is a function from addresses to words, of which the tags
-- are read as bytes, a device is the
-- state behind the ports, the globals of a file are a record. A u8, u32 or u64 keeps its wrap-around
-- where the code can reach it.
--
-- Bounds and fuel. Loops with a known count recurse on it. `find_tag` and the string loops run on
-- fuel, and the theorems say how much is enough: more than the number of tags, or than the length
-- of the string. The index of VGA_display_str is a u16 and wraps, so its theorems are about strings
-- of fewer than 2^16 characters. `flush` runs on 1024 rounds, one more than the ring holds, and printing a number
-- on 65, one more than its digits can be; both are shown to end. The loop of alloc_virtual_page
-- runs on 5 rounds, as it goes down one of four levels in each. The loops of the keyboard that poll
-- the controller run on fuel that is an argument, as they end when the device says so.
--
-- Not modelled: the TLB and the registers cr2 and cr3, whose values are arguments; the text
-- that a failed assertion and the exception handlers print before the machine stops; the assembly;
-- the printing helpers of core/src/pf_alloc.c; what kernel_main prints between its calls. Interrupts
-- that arrive in the middle of a call are not interleaved with it, and neither are the page faults of
-- kmalloc's own stores to new pages.
pub mod Common
pub mod PfAlloc
pub mod VpAlloc
pub mod CString
pub mod Ports
pub mod Pic
pub mod Interrupt
pub mod Serial
pub mod Kmalloc
pub mod Vga
pub mod Printk
pub mod ScanCode
pub mod Keyboard
pub mod Gdt
pub mod KernelMain
