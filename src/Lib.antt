-- ===== src/Lib.antt =====
-- lwos: a small teaching operating system in C for the i386, with a kernel that passes messages
-- and tasks that do the rest.
--
-- The kernel (kernel/proc.c) chooses which process runs and carries messages between processes: a
-- send or a receive either completes at once or blocks the caller, and a blocked sender stands in
-- the sending queue of its receiver. Interrupt handlers wake a process through inform_init.
-- Segment descriptors (kernel/protect.c) give each process its base address, through which
-- addresses in messages are turned into linear ones. Above the kernel, tasks answer messages: the
-- terminals (kernel/tty.c), the file system (fs) and the memory manager (mm), which also ends
-- processes and lets their parents wait for them.
--
-- Common and its children hold lists, Boolean tests, signed integers and laws of the bit
-- operations over the native numbers. Fault has the result type: code ends with a value or stops
-- at a failed assertion, in a panic, with an access outside of its object, or in a loop that never
-- ends.
--
-- Start models the start of the kernel: Start.Gates models init_protect of kernel/protect.c,
-- Start.Elf models get_kernel_map of lib/klib.c, and Start.Table models kernel_main of
-- kernel/main.c. Protect models init_desc of kernel/protect.c, ldt_seg_linear of kernel/proc.c and
-- the reassembly that do_fork of mm/forkexit.c does. Proc has the process table of
-- include/sys/proc.h and the kernel's globals. Ipc models schedule, va2la, deadlock, msg_send and
-- what they call, and Ipc.Receive models msg_receive, inform_init and sys_sendrec, all of
-- kernel/proc.c; the modules below them prove what they do to the scheduler's choice, the sending
-- queues and the chains of blocked senders. Clock models the handler of kernel/clock.c. Ring
-- models the input buffers of a terminal and of the keyboard. Tty models the reading of
-- kernel/tty.c, with what goes out as a list of effects, Tty.Output models tty_do_write down to
-- the console, and Tty.Keys the keys that come in through in_process. Console models
-- kernel/console.c: three consoles in video memory, the output of characters, and scrolling.
-- Keyboard models kernel/keyboard.c with the table of include/sys/keymap.h: Keyboard.Decode turns
-- the buffered scan codes into keys. Hd models kernel/hd.c: Hd.Whole proves what a transfer does,
-- with the drive behind the controller as a parameter that answers as the ATA standard says, and
-- Hd.Partition models the partition tables. Fs has the tables of include/sys/fs.h and the access
-- to sectors, Fs.Rdwt models do_rdwt of fs/read_write.c, Fs.Imap models alloc_imap_bit and Fs.Smap
-- alloc_smap_bit of fs/open.c, Fs.Inodes models get_inode of fs/main.c and new_inode of fs/open.c
-- with the table of inodes as a cache, Fs.Names models strip_path of fs/misc.c, Fs.Dir models
-- search_file of fs/misc.c and new_dir_entry of fs/open.c, and Fs.Descriptors models do_close and
-- do_lseek of fs/open.c and put_inode, fs_fork and fs_exit of fs/main.c. Mm models alloc_mem of
-- mm/main.c and do_exit, do_wait and cleanup of mm/forkexit.c, with Mm.Leave and Mm.Life on the
-- end of a process; Mm.Fork models do_fork of mm/forkexit.c and the loop body of task_mm of
-- mm/main.c. Text models the library's memcmp, strcmp and strcat of lib/misc.c, vsprintf of
-- lib/vsprintf.c and itoa of lib/klib.c. Sys models the system task, kernel/systask.c. Files named
-- Tests hold runs on concrete states.
--
-- Choices of the model: pointers into a table are slot numbers, and a null pointer is none, or 0
-- for a message's address; the word of flags is a record of Booleans; memory is a function from
-- addresses to bytes, and for the kernel's messages from addresses to messages, so that buffers
-- overlap only if they are the same; the memory of a writing process is none of the display's;
-- ticks, counts, sizes and positions are natural numbers, which in the source are ints far below
-- 2^31. The loops over the process table visit 37 slots, although kernel/global.c declares 9; what
-- a read in front of the table finds is a field of the state. Where a test of the source reads a
-- value that C leaves open, the model stops with the fault for a wild access. Where the memory
-- manager sends to a process, the assertions of sys_sendrec on the other party are made; a send
-- that blocks and the switch of processes that follows are not part of it. The driver's count of
-- sectors is a byte and its drive wants whole sectors, so a transfer of more than 256 sectors and
-- a write that ends inside a sector do not end; in the file system a transfer of more sectors than
-- that ends in the same fault.
--
-- Bounds and fuel: schedule gets two rounds, since the second one follows a refill of all ticks,
-- and it is proved that two are enough or that none are; a walk along a queue or a chain of
-- processes gets as many steps as there are slots, or one more for the test at its end, and more
-- steps would go round a cycle; the output loop of a terminal gets one pass for each byte and one
-- more, do_rdwt one for each sector and one more, and both are proved to end with the full result,
-- under the conditions of the results below; the search in a byte of the inode map gets eight
-- steps; the loop of out_char that brings the cursor on the screen gets a round for each word of
-- the console, the loop of keyboard_read one for each byte of the buffer and one more, and a
-- transfer of the disk driver one for each sector and one more, and each is proved to end. The
-- loops over slots, bytes and characters are structural.
--
-- Not modelled: the wrapper send_recv, whose second half runs after a switch of processes,
-- assembly and port accesses, the boot loader, printing and debugging output, the system calls of
-- programs, which only fill in messages, the waiting for the keyboard controller, and, so far, the
-- loop of task_tty, and of the file system all but the parts named above.
pub mod Common
pub mod Fault
pub mod Protect
pub mod Proc
pub mod Ipc
pub mod Clock
pub mod Ring
pub mod Tty
pub mod Console
pub mod Keyboard
pub mod Hd
pub mod Fs
pub mod Mm
pub mod Text
pub mod Start
pub mod Sys
