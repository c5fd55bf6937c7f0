-- ===== src/Lib.antt =====
-- A verification library for a collection of systems-programming exercises in C (cw01 to cw10:
-- data structures, files, processes, shared memory, semaphores, threads, sockets). The exercises
-- are separate programs; each part below stands for one of them.
--
-- Parts and their sources:
-- - WaitQueue: the ring of waiting clients, cw07/zad1/my_queue.c and my_queue.h. `MyQueue` is
--   `struct my_queue`; `my_queue_init`, `my_queue_is_empty`, `my_queue_is_full`, `my_queue_push` and
--   `my_queue_pop` are the functions of these names. An access to `tab` outside the array gives `none`.
-- - BarberShop: the sleeping barber, cw07/zad1/barber.c and clients.c. The barber and the clients are
--   processes that share the ring and three System V semaphores. State holds the shared memory and
--   the place of each process; Barber models `work`, `take_client_from_queue` and `cut`; Client models
--   `get_cut` and `enter_barber_shop`; System lets any process make its next step. One step makes one
--   access to what the processes share. A process that would wait makes no step (`blocked`); an access
--   outside the array or a signal to a negative id is a `fault`.
-- - BarberShop.Posix: the same shop on POSIX semaphores, cw07/zad2/barber.c and clients.c, with the
--   semaphore that the client waits on after it woke the barber: `work` is `barber_turn`, `cut` is
--   `snip`, `get_cut` is `visit` and `enter_barber_shop` is `enter_salon`. Simulation has the state of
--   BarberShop that a state stands for.
-- - AddressBook.Tree: the search tree of persons, cw01/zad1/list.c and list.h: `insert_to_tree`,
--   `insert_to_tree_by_name`, `deleteNode` (here `delete_node`), `minValueNode` (here
--   `min_value_node`), `search` and `sort_tree_by_name`.
-- - AddressBook.Nodes: the doubly linked list of persons, cw01/zad1/list.c and list.h, on a heap that
--   gives each address its node or, where it is free, `none`: `create_list`, `create_node`, `remove_node`,
--   `remove_list`, `add_element_to_list`, `delete_element_from_list` and `find_node`; Nodes.Sort has
--   `sortListByName` (here `sort_list_by_name`) and `List_sort` (here `list_sort`). A read or a write
--   through a free address gives `none`.
-- - ReadersWriters.Monitor: readers and writers with writers preferred, cw09/zad1/v1/main.c:
--   `reader_thread`, `writer_thread` and the start of the threads in `threads_run`, with the mutex, the
--   condition variable and its spurious wake-ups as steps.
-- - ReadersWriters.Semaphores: readers and writers on two semaphores, cw09/zad1/v2/main.c, likewise, with
--   the rounds of each thread's loop counted.
-- - FileSort: the sort and the shuffle of a file of records, cw02/zad1/bubbleSort.c, over a record of
--   the three functions that they are passed (`RecordFile`), and these functions with system calls,
--   cw02/zad1/files.c (Files). The system calls are a parameter (`Disk`), with what POSIX says of
--   them on a regular file without errors as hypotheses (`IsRegular`); Tests has a file in memory.
--   Files.Stdio has these functions with the C library, over a stream (`Stream`, `IsSound`) likewise.
-- - Permissions: the parent that collects requests and permits them together, cw04/zad2/parent.c:
--   `parent_sigusr1_handler`, with the calls of `kill` as a list. What `sigfillset` does on a null pointer
--   and what `sigaction` returns are parameters (`Calls`).
-- - Calculator.Message: the text of an operation, cw10/zad1/server.c, and the client's reading of it and
--   its computation, cw10/zad1/inet_client.c; `atoi` and `strtok` are as C documents them.
-- - Calculator.Server: the two threads of cw10/zad1/server.c, `network_thread_function` and
--   `computing_thread_function`, over the table of connections. What epoll, accept, read and rand
--   return is an input; one event is one step, and a round of the computing thread is two, `choose_client`
--   and `write_message`, with no lock between them.
--   Descriptors has `check_doubles`, which the servers share.
-- - Calculator.Registry: the network thread of cw10/zad2/server.c, which registers names.
-- - Interpreter: the interpreter of a file of commands, cw03/zad1/main.c: the body of `main` is
--   `interpret`, over the lines that `fgets` returns; what the system answers to a call is a parameter.
--   Syntax has the commands and their text.
-- - Pipeline: the shell that runs a line's programs with pipes between them, cw05/zad1/pipes.c:
--   `line_to_programs`, `program_to_args`, `swap_write_read_pipes` and `main`, with the ends of pipes
--   that the shell and each child have open.
-- - Search: the threads that search a file's records, cw08/zad1/v3/main.c: `start_routine`, a step for
--   each access to what the threads share; a cancellation takes effect at any time after the call.
--   Whether `strstr` finds the word in a buffer is a parameter.
-- - Locks: the menu over the locks of a file, cw02/zad3/locks.c: the body of the loop in `main` is
--   `choose`, and `session` is the choices of all processes. `fcntl` (`Fcntl`, with what POSIX says of
--   it in `IsDocumented`) and the calls that read and write a byte (`ByteFile`) are parameters.
-- - MessageServer: the server on a System V message queue and what its clients do to the queue,
--   cw06/zad1/server.c and client.c: the body of the server's loop is `server_turn`; `happen` is a turn, or
--   a client that sends or takes a message.
-- - Base: what the parts share. `ltb`, `leb`, `==` and `length`, `get_elem?`, `set`, `ℤ` stand on
--   the native numbers; `strcmp` compares lists of bytes; `strtok` splits them; `sum_of` adds a weight over the first `n`
--   threads.
--
-- Bounds and fuel. Process ids and array indices are C `int`s that the programs keep far below the
-- limit, so they are unbounded here. The product of a record's index and size in cw02/zad1/files.c is an
-- `int` that a large file makes overflow (`int_product`). The loop of `sort_tree_by_name` runs on fuel, one more than
-- the number of nodes of the tree; its theorem says that this is enough. `sys_next_record` runs on fuel 2:
-- it reads once, and once more from the start at the end of the file. The loops over the linked list
-- run on fuel, at most one more than the number of its nodes; the theorems say that this is enough. The
-- loop over the words of a program's line runs on fuel 11, since `arg` has 10 places and the round
-- after the last is outside it. All other functions recurse on their data.
--
-- Not modelled: printing, argument checks, the set-up and removal of system resources and the exits
-- on failing system calls; the contents of the shared array of cw09; and the other exercises, namely
-- the directory walk of cw02, the limits of cw03/zad2, the other signals of cw04, the
-- plot of cw05/zad2, the POSIX message
-- queues of cw06/zad2 and the other versions of the searching
-- threads of cw08. Freed memory is
-- modelled for the linked list only.
pub mod Base
pub mod WaitQueue
pub mod BarberShop
pub mod AddressBook
pub mod ReadersWriters
pub mod FileSort
pub mod Permissions
pub mod Interpreter
pub mod Locks
pub mod MessageServer
pub mod Pipeline
pub mod Search
pub mod Calculator
