-- ===== src/Lib.antt =====
-- Verification of OS-Agent, an rCore kernel in which a process can become an agent with a context
-- area, a path of past tool calls, attributes of files and events to wait for.
--
-- The parts of the program and the files that model them:
--   Base            helpers: tests on numbers, lists, machine words, the user memory as bytes, and
--                   the errors of os/src/agent/error.rs. `AgentResult` is ok or err.
--   Ext             os/src/agent/pcb_ext.rs and the layout of os/src/agent/context_area.rs: what the
--                   kernel keeps of an agent.
--   Area            os/src/agent/context_area.rs: the mapping of the context area, its header and the
--                   ring of tool results.
--   Path            os/src/agent/context_path.rs: push_node, rollback, clear and the eviction. The
--                   nodes' metadata stand in AgentExt, their bytes in the path buffer of the user
--                   memory, which the functions take and give back. Path.Spec is the abstract path,
--                   a list of byte strings.
--   BTree           what the code uses of BTreeMap, as an ordered association list, and the order of
--                   strings as bytes.
--   Attr            os/src/agent/file_attr.rs: the store of file attributes with its two inverted
--                   indices, its updates and the two queries.
--   Task            os/src/task (manager.rs, processor.rs, mod.rs) and os/src/agent/blocking.rs: the
--                   ready queue, the processor and the blocked agents. A function takes the kernel
--                   and gives it back; `none` is the panic of a missing current task.
--   Events          os/src/agent/event_bus.rs: heartbeats, messages and file events. The processes that
--                   snapshot_all_processes returns are an argument.
--   Calls           os/src/syscall/agent.rs: the system calls, on a System of the kernel, the user
--                   memory of each task and the attribute store. Calls.Utf8 is core::str::from_utf8.
--   Alloc           os/src/task/pid.rs and os/src/mm/frame_allocator.rs: the allocators of pids and
--                   frames; `none` is the panic of a bad deallocation.
--   Proto           agent_proto/src/lib.rs: the frames of tool calls; the postcard codec is a parameter,
--                   with the law that it reads back what it writes, whatever follows.
--   Tool            os/src/agent/tool (registry.rs, handlers.rs): the five tools and their dispatcher, with
--                   postcard's encodings as a parameter; Tool.Call is sys_tool_call, sys_tool_list and
--                   sys_context_query with serialize_meta. Tool.Lossy is String::from_utf8_lossy.
--   Addr            os/src/mm/address.rs: addresses, page numbers and ranges of pages.
--   Table           os/src/mm/page_table.rs: entries and the three-level table, over a physical memory
--                   that is a function from the number of a 64-bit word to the word. Table.Tree has the
--                   map that a table stands for; Table.Buffer is user memory seen from the kernel.
--   Space           os/src/mm/memory_set.rs: map areas and memory sets; Space.Images builds those of the
--                   kernel, of a program and of a fork. What xmas_elf reads of a program is an argument.
--   Bitmap          easy-fs/src/bitmap.rs: the bitmap of blocks, over the 64-bit words of the device.
--   Disk            easy-fs/src/layout.rs: the super block, the block counts of an inode and its index;
--                   Disk.Size is increase_size and clear_size, over the 32-bit words of index blocks;
--                   Disk.Data is read_at and write_at, over the bytes of the blocks; Disk.Dir is the
--                   directory entries.
--   Efs             easy-fs/src/efs.rs: create and open, and the allocation of inodes and data blocks,
--                   with the two bitmaps of Bitmap.
--   Vfs             easy-fs/src/vfs.rs: find_inode_id and ls.
--   Cache           easy-fs/src/block_cache.rs: the cache of 16 blocks over a device, which is a record of
--                   its two operations with the law that a block reads as it was last written. Bitmap,
--                   Disk and Efs work on the device as the cache shows it.
--   Trap            os/src/syscall/mod.rs: which call the registers ask for; Trap.Handler is os/src/trap.
--   Files           os/src/fs and os/src/syscall/fs.rs: the open files and the descriptors of a task, with
--                   the reads over Disk.Data; the slices of a user's buffer are those of Table.Buffer.
--   Control         os/src/task/task.rs, the kernel stacks of os/src/task/pid.rs and sys_fork: new, fork
--                   and exec over Task, Space, Alloc and Files.
--   User            user/src/syscall.rs: the wrappers of the system calls; User.Api is user/src/lib.rs.
--   Process         os/src/syscall/process.rs: sys_waitpid and sys_getpid; the child that a wait drops goes by
--                   drop_block of Control.
-- The system calls tie the parts together: sys_context_push runs push_node on the current task's
-- AgentExt, sys_agent_wait (Calls.Waiting, a turn of its loop at a time) blocks the current task, the
-- timer interrupt runs tick_wake_timeouts and tick_all_agents, and the file attribute calls update the
-- store and broadcast a file event. A memory set maps its areas through Table with frames of Alloc.
--
-- Numbers are native ones. u32 and u64 arithmetic wraps around where the source's release build
-- does, saturating_sub is the subtraction that stops at 0. The user memory is a function from user
-- addresses to bytes in Path, Area and Calls, which do not go through Table, so an access never faults
-- there.
--
-- Loops on fuel: `shift_loop` gets as many rounds as there are bytes, `make_room` one more than there
-- are nodes, `expire` as many as there are blocked agents. Each round takes one of these
-- away. `byte_buffer` needs as many turns as the range has bytes, `copy_from` one for each page and one
-- more, `read_loop` and `write_loop` one for each block up to the last,
-- `read_all` one for each 512 bytes and one more. `str_from` and `snapshot_from`
-- take the number of their rounds from the caller.
--
-- Not modelled: the benchmark of the file queries, the context switch, the registers that the kernel
-- writes, devices, and of the file system the operations of vfs.rs that write, with open_file
-- and OSInode::write that use them.
pub mod Base
pub mod Ext
pub mod BTree
pub mod Area
pub mod Path
pub mod Attr
pub mod Task
pub mod Events
pub mod Calls
pub mod Alloc
pub mod Proto
pub mod Disk
pub mod Addr
pub mod Table
pub mod Space
pub mod Tool
pub mod Bitmap
pub mod Efs
pub mod Vfs
pub mod Process
pub mod Cache
pub mod Trap
pub mod User
pub mod Files
pub mod Control
