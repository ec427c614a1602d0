-- ===== src/Lib.antt =====
-- Verification of tcode, a C++ library of asynchronous I/O.
--
-- The program. `io::engine` runs a loop: it waits in a multiplexer for descriptors, runs the
-- operations that other threads posted, and calls the timers that are due. A TCP channel reads into
-- a `byte_buffer` and passes it through a pipeline of filters. A byte buffer is a window of a
-- block, which `block` counts references to, so that buffers share bytes without a copy; blocks
-- come out of pools of chunks, one `fixed_size_allocator` for each size class. Due times are
-- `timestamp`s, and what lies between two of them is a `timespan`.
--
-- Files and sources.
--   FixedSizeAllocator  include/tcode/fixed_size_allocator.hpp: the pool as a list of addresses; `init`,
--                       `clean_up`, `alloc`, `free`.
--   Block               src/block.cpp: `block_manager` as a record of the pools, the headers and the
--                       bytes of each address, with `alloc`, `realloc`, `free`, `capacity`, `refcount`,
--                       `duplicate` and `copy`. Block/Sound is the invariant.
--   ByteBuffer          src/byte_buffer.cpp: the block and the two positions, with each method as a
--                       step of the block manager. ByteBuffer/Holds says that a buffer holds a live
--                       block, and what its readable bytes are.
--   Time/Span           src/time/timespan.cpp.
--   Time/Stamp          src/time/timestamp.cpp.
--   Time/Calendar       src/time/util.cpp: leap years, day counts and the conversion of a `time_t`;
--                       Time/Calendar/Forms has the timeval, timespec, filetime and systemtime
--                       (src/time/systemtime.cpp) outside Windows, and Time/Calendar/Gregorian the
--                       calendar that dates are compared with.
--   Engine              src/io/engine.cpp, src/io/timer.cpp, src/io/timer_id.cpp: the sorted list of
--                       timers, the counts of references to them, and the posted operations.
--   Pipeline            src/io/ip/tcp/pipeline/pipeline.cpp and filter.cpp: the filters by address with
--                       their pointers, `add`, `add_inbound`, `add_outbound` and `remove`;
--                       Pipeline/Chain reads the pointers as a list. Pipeline/Delivery has the fire
--                       functions, inside the run loop and from other threads.
--   Channel             src/io/ip/tcp/pipeline/channel.cpp: the flag word, the buffers that wait to be
--                       sent, and each handler. Channel/Life is its life as a sequence of steps.
--   Epoll               src/io/epoll.cpp: the descriptors by address, with their three queues of
--                       operations and their reference counts, and the posted closures.
--                       Epoll/Requests has the calls that callers make and Epoll/Loop the dispatch and
--                       `run`; Epoll/Transfer the calls that move data. Epoll/Sound is the invariant:
--                       the accounts of the operations (Account), the holders of the references
--                       (Owner) and the known addresses (Known). Epoll/Reach has the states of a
--                       multiplexer, and Epoll/Wake the threads around its queue and pipe.
--   Operation           src/io/ip/tcp/operation_read.cpp, operation_write.cpp, operation_accept.cpp and
--                       the udp operations: what an attempt does with the answer of its system call,
--                       over the buffers of src/io/buffer.cpp. Lengths are ints: integers, of which
--                       the theorems assume that an int counts the bytes of all buffers.
--   Base64, Crc32       src/base64.cpp and src/crc32.cpp; Crc32/Bitwise has the division that the
--                       checksum's table stands for.
--   Log                 src/log/logger.cpp `write_dump` and src/string.cpp `raw_to_hex_string`.
--                       Log/Files is src/log/file_writer.cpp outside Windows, with the files that it
--                       opens, the lines in each, and those it deletes or empties.
--   Slist               include/tcode/slist.hpp: queues over one heap of pointers.
--   Common              lists, integers, maps, byte memory and machine words that the parts share.
--
-- How the code is modelled. A method is a function that returns the object after it. Memory is
-- explicit: an address is a number, 0 for nullptr, and the block manager keeps headers and bytes by
-- address. A method of a byte buffer is a step `Manager → Option (A × Manager)`; `none` is
-- undefined behaviour or a failed assertion. The address that `std::malloc` returns is an argument,
-- of which the theorems assume that it is not in use. Counts and sizes are bit patterns with their
-- wrap-around written out; spans and times are integers, as the code leaves the overflow of int64_t
-- undefined.
--
-- The answers of the system's calls are arguments of the definitions that make them. In the
-- multiplexer the calls that an operation's handler makes are a parameter, a function of the state
-- to a list of calls, and so is what the operation's `post_proc` answers; the theorems hold for all
-- of them. A count of references is an int with its wrap-around; the theorem that nothing in use is
-- deleted assumes that fewer operations were handed over than an int counts.
--
-- Loops. The lists that a loop walks are its recursion. On fuel are: `timer_drain`, for which
-- Engine/Rounds computes how many rounds are left; the two loops of `convert_to`, for which one
-- more than the number of days, and the twelve months, are enough; the walk of `add` and the calls
-- between filters, for which one more than the number of filters is enough; the encoder's inner
-- loop, for which the number of bits is; and the dispatch of a queue, for which one more than its
-- length is. The loops over EINTR walk the list of the answers.
--
-- Not modelled. The system's calls, the threads and their locks (each method of the block manager
-- is one step), the callbacks of timers and the methods of filters (arguments of the definitions,
-- with what is assumed of them as hypotheses), the clock (its time is an argument), and the parts
-- of the repository that have no file here: the other multiplexers, connectors, SSL, the other
-- writers of the log, and the older version in old/.
pub mod Common
pub mod FixedSizeAllocator
pub mod Block
pub mod ByteBuffer
pub mod Time
pub mod Engine
pub mod Base64
pub mod Channel
pub mod Crc32
pub mod Epoll
pub mod Log
pub mod Operation
pub mod Pipeline
pub mod Slist
