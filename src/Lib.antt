-- ===== src/Lib.antt =====
-- A verification library for the linux_c_homeworks repository: exercise programs for Linux in C
-- (linux_c_development) and kernel modules (linux_kernel_development). Each part stands by itself; the
-- kernel modules share some texts, which are modelled once and named again for each copy.
--
-- Parts, files and sources:
-- Prelude and its children: natural numbers, lists as memory, integers of the mathematical and the
--   machine kind (`int` has 32 bits and `size_t` 64; conversions wrap).
-- Arrays: linux_c_development/homework1 (array_fill_with_rand_nums, array_show, sort_array, main);
--   Arrays/Copies names the copies in homework2/static, homework2/dynamic and homework3/array.
-- NumFile: linux_c_development/homework3/array/main.c, the parser of a file of numbers.
-- Turns: linux_c_development/homework11/1_2_3/1_2_3.c and tic_tac/tic_tac.c, threads that take turns by
--   a mutex and a condition variable.
-- Busy: linux_kernel_development/homework10/tic_tac.c, two kernel threads that take turns by busy
--   waiting, and tictac_init.
-- Chat: linux_c_development/homework10/async_chat/async_server.c, main and thread_func; Chat/Setup
--   has conf_server and the part of main before its loop.
-- RandNum: rand_num_get of linux_kernel_development/homework3 and homework9, rand_init of
--   homework2/task2.
-- ArraySum: linux_kernel_development/homework3/array_sum_rand and array_sum_changeable.
-- Chardev: registration, opening and sharing of the character devices of
--   linux_kernel_development/homework6, homework9/module_device, homework9/module_interface and
--   homework12/keyboard_irq (create_device, the init and exit functions, node_open, node_release).
-- Transfer: node_read and node_write of homework6 and node_write of homework9/module_device.
-- Reports: node_read of homework9/module_interface and of homework12/keyboard_irq, with
--   the counter of kb_int.
-- Worker: thread_func of homework9/module_device/module_device_main.c, which fills the array that
--   module_interface shows, and works with the amount that node_write stores; Worker/Course puts the
--   three together.
-- Philosophers: linux_kernel_development/homework11/philosophers/philosophers.c.
-- Shmem: linux_c_development/homework6/example3/shmemserv.c and shmemcli.c, a conversation through shared
--   memory that is kept apart by locks and a turn.
-- Sems: semserv.c and semcli.c of the same directory, the conversation with semaphores.
-- Channel: what both are to do, a place for one text; Shmem/Refines and Sems/Refines are the refinements.
-- Lines: the three ways to read a line into an array, in the clients of example3, in
--   linux_c_development/homework6/chat/msgtypes.h and in homework8/chat/socket_server.c.
-- Queue: linux_c_development/homework6/chat/msgserver.c and msgclient.c.
-- Socket: linux_c_development/homework8/chat/socket_server.c.
-- Halts: linux_c_development/homework11/mutex/mutex3.c, two threads that count together.
-- CopyLoops: myread.c, myread1.c and rw.c of linux_c_development/homework3/img, and
--   homework5/pipes/makelog.c.
-- Draw: linux_c_development/homework3/img/draw.c.
-- Radio: linux_kernel_development/homework4/radio.
-- Numbers: linux_c_development/homework7/random_numbers/rand_server.c and rand_client.c, numbers exchanged
--   through a block of shared memory; Numbers/Refines takes it to the Channel too.
-- Halves: linux_c_development/homework10/array_sum/array_sum.c, two threads that add to one sum.
-- Locks: linux_c_development/homework4/testlocks.c and testlocks_original.c.
-- Asking: msgserv.c, msgcli.c, polymsgserv.c and polymsgcli.c of linux_c_development/homework6/example3.
-- Stops: linux_kernel_development/homework8/stop_kthread/stop_kthread.c.
-- Users: linux_kernel_development/homework5/main.c and homework7/user_file/main.c, programs that use a
--   device.
--
-- State and operations: the variables of a program are a record, and a function of the source is a
-- function of the same name that takes the record and gives it back. An access outside an array, a
-- division by 0 or a wait without end is the result `none`, or a case of an outcome type. What the
-- kernel, the C library's rand() or another process answers is an argument. Threads and processes are
-- step relations (Turns, Busy, Halts, Halves,
-- Shmem, Sems, Numbers, Queue, Asking, Chat, Worker, Chardev/Sharing, Radio/Sharing); a step is what one of them
-- does between two calls that another can notice.
--
-- Bounds: loops with a counter are recursion on the number of rounds that are left, as many as the
-- condition of the loop admits. Reading in a loop (read_all in Transfer/Read) takes fuel, one more than
-- the length of the message, since every read before the end moves on by at least one byte. The number
-- of threads in Turns is any number n whose turns go round, of which three and two are instances;
-- pthread_cond_signal of the two threads is taken as a broadcast, since only one thread can wait.
-- In Chat the creation of a thread and the increment of clients_num are two steps, and the loop that
-- writes a message is one. In Philosophers a call of a stick function is one step.
-- In Worker the writes before the start of the thread are told from those after it.
-- The steps of processes and threads follow each other in one order that all of them see; what a processor
-- reorders is not modelled. In Shmem and Sems a whole strcmp, strcpy or line that is read is one step, though the other process may
-- see a part of it. In Queue and Asking a call of msgsnd or msgrcv fails only when the queue has been
-- removed, and in Asking when the message is too long. In Halves a read of the sum and its store are two
-- steps. The loops of CopyLoops take fuel, more than the number of bytes, since every read but the last
-- moves at least one byte; what putchar, fputs and fwrite are given may get lost, unnoticed.
--
-- Not modelled: printk and printf apart from what Arrays prints and the texts that Radio, Users, Shmem,
-- Sems, Numbers, Asking, Stops and Socket keep; the echo of the characters in homework3/array/main.c and
-- what follows the parsing; tictac_cleanup; the opening of the file in homework4; signals, fork and the
-- other pipes, which only pass calls on to the system; the first kernel modules, which print a message;
-- files that the kernel build generates.
pub mod Prelude
pub mod Arrays
pub mod RandNum
pub mod ArraySum
pub mod Chardev
pub mod Transfer
pub mod Philosophers
pub mod Lines
pub mod Channel
pub mod Shmem
pub mod Asking
pub mod Locks
pub mod Sems
pub mod Numbers
pub mod Queue
pub mod Socket
pub mod Turns
pub mod Busy
pub mod Halts
pub mod Halves
pub mod Reports
pub mod Radio
pub mod Users
pub mod Stops
pub mod CopyLoops
pub mod Draw
pub mod Chat
pub mod NumFile
pub mod Worker
