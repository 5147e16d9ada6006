-- ===== src/Lib.antt =====
-- Models and proofs for cqjs, a JavaScript host: a process that reads requests as JSON lines on
-- standard input, runs code in environments of the QuickJS engine, each on a thread of its own, and
-- answers with JSON lines on standard output.
--
-- The parts, and how they interact. The main thread (main.c) handles a request line: it creates or
-- destroys an environment in the environment manager, or submits a request to an environment's queue
-- (env_manager.c). The environment's thread takes the requests from the queue in order, runs the code,
-- with the bytecode cache that all environments share (bytecode_cache.c), sends a response (cqjs.c), and
-- then fires the timers (polyfill/timer.c). Code in an environment answers dispatched requests through
-- the dispatch tracker (cqjs.c) and uses the polyfills (polyfill/).
--
-- The files:
--   Prelude       shared names, lists and Booleans over the native numbers, byte strings
--   Format        hexadecimal and decimal digits, as snprintf prints them
--   Json          json_escape_string, send_json_response and cqjs_send_response of cqjs.c: a
--                 string is a list of bytes without 0, a pointer an option; Json/Reader, Json/Object and
--                 Json/Stream hold independent readers of literals and arrays, of objects, and of lines
--   Dispatch      dt_init, dt_new_request, dt_find, dt_resolve, dt_reject, dt_remove and dt_free of
--                 cqjs.c: the tracker is a record with the list of its entries
--   Cache         bytecode_cache.c: the buckets are a list of chains, a chain a list of entries
--   Timespec      timespec_add_ms, timespec_cmp and cqjs_now_ms of cqjs.c
--   Timers        polyfill/timer.c: the list of timers and the counter
--   Queue         env_submit_request and the removal in env_event_loop of env_manager.c: nodes in an
--                 explicit heap, with the pointers to the first and the last
--   Env           env_manager_init, env_create, env_find, env_destroy and env_manager_free of
--                 env_manager.c
--   Server        json_get_string, json_get_int64, handle_request and the loop of main over the lines,
--                 of main.c: the parsed line is a function from keys to properties; the result is the
--                 manager and the responses; Server/Handling lists the ways in which handle_request ends
--   Stdin         stdin_reader_init, stdin_reader_push, stdin_reader_pop and stdin_reader_thread of
--                 main.c: the pieces that fgets reads are a list
--   Main          the reader's thread and the main thread of main.c together, as a step relation
--   System        the main thread and the threads of all environments together, as a step relation;
--                 System/Client is what a client may expect
--   Host          the whole process: Main and System composed
--   BigStack      cqjs_eval, cqjs_eval_function and cqjs_call of cqjs.c: stack pointers are numbers,
--                 and the engine's count of its limit is an argument
--   Bridge        js_env_cqjs_send of env_manager.c
--   Eval          env_process_jobs, env_handle_eval, env_handle_eval_file and the handling of a request in
--                 env_event_loop of env_manager.c: operations of the engine are functions on its state
--                 that may send events; Eval/Thread is the relation of any interleaving of submissions
--                 with the thread's rounds, and Eval/Loop a round of env_event_loop
--   Script        the arguments and results of a C function that the engine calls
--   Url           parse_url and the constructors URL and URLSearchParams of polyfill/url.c
--   Buffer        polyfill/buffer.c
--   Fetch         polyfill/fetch.c: Header and Transfer are the callbacks and the worker, Request and
--                 Response what a script calls, Pending the list of the fetches
--   Console       polyfill/console.c
--   Crypto        polyfill/crypto.c; the functions of the TLS library are the fields of a record
--   Zlib          polyfill/zlib.c, likewise for zlib
--   SearchParams  sp_parse and the methods of URLSearchParams in polyfill/url.c: a list of parameters
--   Encoding      polyfill/encoding.c: base64, hexadecimal text, and the bindings that call them
--
-- State is passed explicitly; an operation that the code runs under a mutex is one step. What the engine,
-- the TLS library, the clock and the operating system answer is an argument; Main, System and
-- Host take what the platform answers for each line separately, by the number of lines still to come.
-- Allocations succeed.
--
-- Bounds. Machine integers whose wrap-around the code relies on are written out (the hash of
-- bytecode_cache.c); counters of 64 bits are natural numbers, and the theorems that need it bound the
-- number of operations. The decimal printer has 20 rounds, enough for every 64-bit number. The loop of
-- tm_process_pending runs on fuel, one round for each callback, that of fm_process_pending on one round for
-- each walk, and that of inflate on one for each call of zlib; their theorems give amounts that are enough.
-- The growth of the buffer of a transfer has the fuel that is needed.
--
-- Not modelled: the QuickJS engine in quickjs/, the threads and pipes themselves, the functions that
-- register the bindings, the set-up of the process, and log output. In System, handling a request is one
-- step: what the threads send meanwhile is not interleaved with it.
pub mod Prelude
pub mod Format
pub mod Encoding
pub mod Json
pub mod Env
pub mod Server
pub mod Stdin
pub mod Bridge
pub mod Script
pub mod SearchParams
pub mod Buffer
pub mod Url
pub mod Fetch
pub mod Main
pub mod System
pub mod BigStack
pub mod Host
pub mod Console
pub mod Zlib
pub mod Crypto
pub mod Eval
pub mod Queue
pub mod Timers
pub mod Timespec
pub mod Cache
pub mod Dispatch
