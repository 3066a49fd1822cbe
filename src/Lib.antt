-- ===== src/Lib.antt =====
-- httpaa: a pool of worker threads, a library of counted strings, a parser of URIs (RFC 2396) and a
-- parser of HTTP requests (RFC 2616), all of them C headers of static functions.
--
-- A server thread accepts connections and puts each into the ring of works of a pool
-- (worker/workeraa_utils.h, which calls socket/socketaa_utils.h); a worker thread takes it out and
-- runs a handler on it, which reads the request into a string (string/stringaa.h) and parses it
-- (http/httpaa_utils.h, http/httpaa.h). The parser of the request line calls the parser of URIs
-- (url/uriaa_utils.h, url/uriaa_rfc2396.h) on the part of the request that is left to read.
--
-- The files and the code that they model:
--   Base            C's comparisons and arrays on native numbers, and text literals as bytes.
--   Worker/Sync     worker/workeraa_structs.h and worker/workeraa_index_utils.h:
--                   `workeraa_work_check_read_index` is `work_check_read_index`, and so on.
--   Worker/Work     worker/workeraa_utils.h (`workeraa_set_work` is `set_work`, `workeraa_get_work`
--                   is `get_work`, `workeraa_sync_init` is `sync_init`) and socket/socketaa_utils.h
--                   (`socketaa_set_work`).
--   Worker/Bounds, Worker/InRange, Worker/Reach, Worker/Fifo, Worker/Wrap   the theorems on the ring:
--                   the calls that leave the array, the states that are reached from a new pool, the
--                   ring as a queue, and what happens at the end of the array.
--   Stringaa/Defs   string/stringaa.h: the structure, and the functions that move a position or
--                   read a byte: `stringaa_next_read_pos` is `next_read_pos`, and so on.
--   Stringaa/Store  string/stringaa.h: the functions that give a string its buffer and write into
--                   it; `stringaa_malloc` is `malloc_buf`.
--   Stringaa/Find   `stringaa_find`.
--   Stringaa/Cursor, Stringaa/Moved, Stringaa/Rests, Stringaa/Copy, Stringaa/Append,
--   Stringaa/Search the theorems on reading, copying, adding and finding.
--   Uri/Chars, Uri/Defs, Uri/Path, Uri/Host, Uri/Reference   url/uriaa_structs.h,
--                   url/uriaa_rfc2396.h and `uriaa_check_url` of url/uriaa_utils.h: one function
--                   for each rule of the grammar, named like it (`absoluteURI` is `absolute_uri`).
--   Uri/Escape      the escaping and unescaping of url/uriaa_utils.h.
--   Uri/Segments    `uriaa_remove_segment_point` and `uriaa_remove_segment_points` of
--                   url/uriaa_rfc2396_resolve.h, and the loops that `uriaa_resolve_uri` shares with
--                   them; its children hold the theorems, Uri/Segments/Spec the segments of a path as
--                   a list and the relation of the steps up.
--   Uri/Resolve     `uriaa_resolve_uri`: `merge_paths` joins and reduces the paths, `compose` puts
--                   the URI together; its children hold the theorems.
--   Uri/Scan, Uri/Frame, Uri/Written, Uri/Escaped, Uri/Unescaped   the theorems on the loops over a
--                   class of characters, on what every rule keeps, and on escaping.
--   Socket/Transfer, Socket/Serve   socket/socketaa_worker.h: `socketaa_worker_recv` is
--                   `worker_recv`, and so on; the loop of `socketaa_worker` is `serve`.
--   Socket/Closed, Socket/Shutdown   the theorems on when the loop closes the socket, and on the flag
--                   of a shutdown in sending.
--   Http/Chars, Http/Lexer, Http/Keyword, Http/Arrays, Http/Defs, Http/RequestLine, Http/Header,
--   Http/Request    http/httpaa_definitions.h, http/httpaa_arrays.h, http/httpaa_structs.h,
--                   http/httpaa.h up to the headers of a message (`http11_comment` is in
--                   Http/Fields), and
--                   `httpaa_parse_request_headers` of http/httpaa_utils.h; `http11_crlf` is `crlf`,
--                   and so on.
--   Http/Rule       the forms in which the rules of the header values of http/httpaa.h are put
--                   together: `p & q` is a nested `if`, `back` the return to the position before.
--   Http/Dates, Http/Fields   these rules: `http11_date` is `date`, `http11_header_via` is
--                   `header_via`, and so on; Http/Dates/Known, Http/Dates/Written, Http/Dates/Kept,
--                   and Http/Fields/Refused hold the theorems.
--   Http/Work       http/httpaa_work.h: the names of the files of a request and of its response;
--                   Http/Work/Fault holds the theorem.
--   Http/Lines, Http/Words, Http/Version, Http/Quoted, Http/Moves, Http/Values, Http/LineMoves,
--   Http/Total      the theorems on line ends, methods, versions, quoted strings, and on the whole
--                   parser.
--
-- How state is modelled. A structure is a record, and a function that changes it returns the new
-- record beside its result; a flag is a Boolean. The buffer of a string is the list of the bytes
-- from its pointer to the end of the block, so a part of another string is a copy of its tail; the
-- rules that are modelled write into no buffer that another string shares. The functions that write
-- into memory return `none` where they leave a block. The two operations on the ring run under a
-- mutex, so a run of the server and the workers is a sequence of calls; `Outcome` says whether a
-- call returns, waits, or leaves the array. Whether the mutex is taken, memory is there and a wait
-- fails are arguments. The blocks that the works point to are kept in a heap, since a place of the
-- ring keeps its block and the next work overwrites it.
--
-- Bounds and fuel. A size is a number without an upper bound, but a difference that is negative in
-- C wraps at 2 ^ 64 (`size_sub`). A byte is a number below 256. `atoi` stops at the largest `long`
-- and keeps its low 32 bits (`to_int`), as glibc does. A loop over a string runs on fuel, one more
-- than the write position: each round moves the read position on. The loops over the header lines
-- and over a quoted string take their fuel as an argument and return `none` if it is used up; for
-- the first one it is proved how much suffices. The rules of the header values with a loop that no
-- `break` leaves take a fuel as well, and return `none` whatever it is. The loops that reduce a
-- path run on fuel with a theorem that it is enough; there `none` stands for an access outside a
-- block.
--
-- The loop of a connection is a function of the outcomes of its system calls, one per round, and of
-- the handler of its port, which is a parameter.
--
-- What the code calls of the C library: `malloc` is an argument of the functions that use it, and
-- the theorems assume that a block has the size that was asked for; `memcpy`, `memset`, `strlen`,
-- `_toupper` and `_tolower` are written out.
--
-- Not modelled: `stringaa_free` and the printing functions of string/stringaa.h;
-- string/stringaa_math.h and string/stringaa_math_factorial.h, which nothing includes;
-- `httpaa_get_filename` and `httpaa_build_response` of http/httpaa_utils.h, which nothing calls; the
-- handlers worker/workeraa_http.h and worker/workeraa_network.h; the start of the threads; the
-- server and the client in socket/.
pub mod Base
pub mod Worker
pub mod Stringaa
pub mod Uri
pub mod Http
pub mod Socket
