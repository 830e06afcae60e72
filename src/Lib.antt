-- ===== src/Lib.antt =====
-- The C core of the MindConnect Library (MindConnect_Library_V3.1.3.0), with which an agent sends its
-- data to MindSphere. An agent puts data into a store; the HTTP processor writes them to a request,
-- sends it, and evaluates the response: what was delivered leaves the store, what was not is sent
-- again. Below lie strings, arrays of strings, linked lists, Base64 and an allocator.
--
-- Files, and the C files (below MindConnect_Library_V3.1.3.0/) that they model:
--   Code          include/mcl/mcl_common.h: the error codes
--   Memory        src/memory.c: `memory_allocate`, `memory_release`, `memory_reallocate`
--   StringUtil    src/string_util.c: `string_util_find`, `string_util_strnlen`, `string_util_snprintf`
--   StringType    src/string_type.c: `string_t`, its owners, and the functions that make new strings
--                 (StringType/Operations, StringType/Split)
--   StringArray   src/string_array.c: arrays that grow by an increment
--   Base64        src/base64.c: both alphabets, encoder and decoder
--   LinkedList    src/list.c: the doubly linked list with a cursor, on a heap of nodes
--   Store         src/store.c: the states of the data, and the check of versions
--   Exchange      src/http_processor.c: what the outcome of a send operation does to the store
--   Exchange/Fill     `_exchange_fill_http_request`: which data are written to a request
--   Exchange/Loop     `http_processor_exchange`: the loop that fills, sends and evaluates requests
--   Exchange/Content  what is written for one datum: `_exchange_prepare_data`,
--                 `_exchange_add_current_data_to_request`, `_exchange_finalize_http_request`
--   Exchange/Content/Streaming  `_exchange_add_current_data_to_request_by_streaming`
--   HttpRequest   src/http_request.c: the growth of the payload and its boundary lines
--   HttpRequest/Part     the pieces of a section, and the random boundary
--   HttpRequest/Section  `http_request_add_single`, `http_request_add_tuple`, the sub sections and
--                 `http_request_finalize`
--   Base          what the modules share: tests, lists over the native numbers, bytes
-- A file is the definitions of its component, and the files below it are named for what they prove.
-- A function keeps its name in the source, less the prefix of its module where that says nothing.
--
-- Memory. A command takes a memory and returns it changed: the environment's answers to the requests
-- for memory, the bytes that a new block holds, and the count of the blocks that are live. So a leak
-- is a count that is too high. A pointer to characters is the list of bytes from there to the end
-- of its block, and a byte behind the end reads as NUL. Strings are values; that two of them share a
-- buffer is told to the one function that compares pointers. LinkedList alone has a heap of nodes
-- and addresses, since there the connections matter; Exchange runs on that heap.
--
-- `size_t` has 64 bits, and its arithmetic is written out modulo 2 ^ 64. A loop is recursion on the
-- rounds that are left, or on the text. Loops over linked nodes take `count + 1` rounds, and a run
-- that had more would be `out_of_fuel`: the theorems on the list show that it never is for a list.
-- A write outside a block is `none` in HttpRequest, a print through NULL is `none` in
-- StringType/Operations, and an access to no node a `fault` in LinkedList.
-- The loop that fills a request is given its rounds: on a store that is not streamable
-- 2 n (n + 1) + n + 2 are enough for n data (Exchange/Fill/Ends), since each trip along the list that
-- is followed by another has written a datum; on a streamable store the end depends on the callbacks
-- of the data, and is not claimed. The loop of the exchange takes as many rounds as there are data.
--
-- Interfaces. Exchange/Fill reaches the data and the request through `Adding`, a record of operations,
-- whose laws (`Lawful`) Exchange/Content proves for the operations on a request. The exchange reaches
-- these, the initialization of requests, the correlation ids and the HTTP client through `Client`,
-- and asks that all but the first leave the states of the data alone (`Honest`). Exchange/Loop/Program
-- fills `Client` with the operations on a request, and proves what is asked of them.
--
-- The C library is taken at its word (`strlen`, `strncpy`, `strncat`, `strncmp`, `vsnprintf`). The
-- new size of a payload is computed in floating-point numbers: it is a parameter, and its hypothesis
-- says that it leaves room for what is required.
--
-- Not modelled: logging, libcurl, OpenSSL, cJSON, files, and the parts that these make up (jwt.c,
-- json.c, storage.c, communication.c, security_handler.c); the data types that a store holds; the
-- headers of a request.
pub mod Base
pub mod Code
pub mod Memory
pub mod StringUtil
pub mod StringType
pub mod Base64
pub mod LinkedList
pub mod Store
pub mod Exchange
pub mod StringArray
pub mod HttpRequest
