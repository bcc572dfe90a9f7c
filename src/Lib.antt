-- ===== src/Lib.antt =====
-- A model of the C programs of this repository, and what is proved of them.
--
-- The repository is a collection of small systems programs in C and C++. Each part below stands on
-- its own; they do not call one another. Base holds what the models share: Boolean tests, lists
-- under native indices, and `Run`, the outcome of C code: a value, a fault (a read or write outside
-- an object, a NULL pointer followed, a failed assertion) or a loop cut off by its fuel.
--
-- Kmp, 0_kmp_and_linkedlist/kmp.c: make_next and kmp over byte lists. A string is its bytes without
--   the terminator; a read at its end gives 0, and a read behind that is a fault. The table `next` is
--   a list with checked reads and writes. The inner loop of make_next gets one round more than the prefix length, the loop of kmp
--   2 * strlen(text) + 1 rounds; both are enough by the theorems. The program's main is not
--   modelled, nor the first make_next, which #if 0 removes.
-- Deadlock, 11_deadlock_detector/deadlock_detector.c: the task graph with its nodes at addresses, the
--   hooks round lock and unlock, and one round of detector_routine. Each runs under `g->mutex`, so
--   each is one step. malloc is a parameter: the address that it returns. search_cross gets one round
--   for each vertex and one more, which is enough by the theorems. Counts and Users compare the field
--   `used` with the threads that wait. The calls of pthread, dlsym and
--   sleep are not modelled.
-- Bytes: slices of a buffer, checked reads and writes, and what a row of writes leaves behind.
-- UserStack, 5_userspace_stack/udp_icmp_arp_stack.c: in_cksum, str2mac and print_mac, the handlers of
--   ARP, ICMP echo and UDP, and the dispatch in main for one frame. A frame is the list of bytes of
--   the receive buffer; At holds the offsets of the packed structs. The sum of in_cksum is an int, so
--   leaving its range is a fault. inet_addr(SELF_IP) and the result of malloc are parameters. The
--   netmap and poll calls and what is printed for debugging are left out.
-- MemPool, 8_mem_pool/MemPool.c and MemPool.h: blocks in link order, with the header of a piece and the
--   descriptor of a bucket as functions of their addresses; Calls has the buckets and the functions
--   of the interface. The results of posix_memalign are parameters, and so is what the memory of a
--   new descriptor holds. Walks along the list of buckets, which lies in memory that the code does
--   not initialise, have the fuel of the caller. What users write into their pieces, the test for a
--   NULL pool and mp_pool_statistic are not modelled.
-- RbTree, 1_rbtree/rbtree.c and rbtree.h: nodes at addresses with the sentinel among them; Rotate,
--   Insert and Delete hold the functions. Shape, Frame, Rotation and Search see the nodes as a
--   binary tree with keys. Zipper sees them, from one of its places, as a tree with colours and the
--   way up to the root, Turn, TurnLeft and TurnRight tell what writes and rotations do there;
--   Balance has the colours and the order, Lift, Rounds, Round and Adjust the repair, Place and
--   Attach the way to the place of a new node, Insertion the whole, and Lookup the search behind it.
--   Loops have the fuel of the caller; one round more than there are nodes is enough for a search
--   and for an insertion. The traversal, which prints, and the callback swapData, which exchanges
--   data outside the nodes, are not modelled.
-- BTree, 2_btree/btree.c and btree.h: nodes at addresses with an array of keys and one of children, and
--   the addresses that malloc is going to return. Insert is _insert_notfull and btree_insert, Delete is
--   _merge_children, _delete_key and btree_delete; a read or write outside an array and the use of a
--   freed node are faults. Arrays and Gaps tell what the loops over the arrays do; those have the
--   number of their rounds, and the recursion down the tree has the fuel of the caller, one round for
--   each level. The traversal, which prints, is not modelled.
-- DnsClient, 10_async_request_pool_by_epoll/async_dns_client.c: the request as bytes, and the parser of
--   the response in Response. strtok is the list of the tokens; inet_ntop is a parameter, and so are
--   the bytes of random and the memory of malloc. Recursion over labels and pointers is on fuel. The
--   sockets, epoll and the thread are not modelled; sync_dns_client.c has copies of these functions.
-- Reactor, 4_high_concurrency_reacor_test/epollTest_multiport.c: the items in memory, the descriptors that
--   epoll watches, and the bytes of the connections, with a function for each callback, for
--   init_port_and_listen and for a round of the loop (dispatch). What the kernel and malloc answer
--   is a parameter, a Reply; also EPOLL_CTL_ADD may fail, and the parameter `all` of the invariant says
--   whether it is assumed not to. Reach is the loop as a relation: epoll_wait reports different watched
--   descriptors, and a round handles one of them. main's loop over a hundred ports, the printing and
--   the number that a callback returns, which the loop drops, are not modelled.
-- RedisConn, 9_using_hiredis_api/RedisConn.cpp and RedisConn.h: the readers of a reply, Init, and a
--   function for each method in Commands. hiredis, of which 9_using_hiredis_api/hiredis is a copy, is
--   a parameter: what the server answers to a command behind others. Held counts the replies.
-- ConnPool, 6_connections_pool_for_mysql/ConnPool.cpp and ConnPool.h: the pool of connections, each call a
--   step under the mutex and a wait in takeConn two. Connections are numbers, and what newFreeConn and
--   the connection's own init do is given by the caller of the model. Logs are not modelled.
-- LinkedList, 0_kmp_and_linkedlist/linkedTest.cpp: a heap of nodes at addresses; a node that was deleted
--   is not in it, and reading it is a fault. Lists is the class, its constructor and clearList. Chain
--   is the view of a list that ends as the list of its nodes. The loops have the fuel of the caller,
--   one round more than the list has nodes in the theorems. Printing is not modelled.
-- ThreadPool, 7_thread_pool/ThreadPool.cpp and ThreadPool.h: what a thread does under m_mutex is one step,
--   so the pool is a step relation over its list of threads, each ready for the mutex, blocked in
--   m_cond.wait or running a task. Which worker notify_one wakes is open, and wake-ups without a
--   reason are steps. Enter holds the three ways on from the wait. What a task does, the log, and
--   overflow of the counts are not modelled.
pub mod BTree
pub mod Base
pub mod Bytes
pub mod ConnPool
pub mod Deadlock
pub mod DnsClient
pub mod Kmp
pub mod LinkedList
pub mod MemPool
pub mod RbTree
pub mod Reactor
pub mod RedisConn
pub mod ThreadPool
pub mod UserStack
