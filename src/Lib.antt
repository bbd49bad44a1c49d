-- ===== src/Lib.antt =====
-- clueapi: an HTTP server library in C++20. An application registers routes and middlewares, is
-- started with a configuration, and serves requests on a pool of I/O contexts until it is stopped
-- by a call or a signal. A request is parsed, its cookies, parameters and multipart parts are
-- read, its path is looked up in a radix tree of routes, and the handler's response is written,
-- in chunks where it is streamed. Modules for logging, dotenv files and Redis can be switched on.
--
-- What stands where (paths of the repository, and the files beside this one):
--   * clueapi/route/detail (Route): Route/Path has the helpers on paths, Route/Tree the nodes,
--     `insert` and `find`. A node is reached by one pointer, so the tree is a value; insert returns
--     the tree it leaves behind, also where it throws. The modules below Route/Tree hold the proofs.
--   * clueapi/shared/non_copy (Shared): Shared/Text for trimming, comparing and unquoting,
--     Shared/Split for split_view_t with the state of its iterator, Shared/Extract for extract_sv
--     and extract_str. clueapi/shared/impl/shared.cxx is Shared/Filename.
--   * clueapi/shared/io_ctx_pool (Shared/IoCtxPool): start, stop and io_ctx on the pool as a value.
--     A context is its position and whether it was stopped; a join that never returns is `none`.
--   * clueapi/http (Http): Http/Method for method_t, Http/Url for url_decode, Http/Chunks for
--     chunk_writer_t, Http/Cookie for cookie_t, Http/Request for request_t and its cookies,
--     Http/Context for ctx_t, which runs the multipart parsers on a request, Http/Status for
--     the texts of the codes.
--   * clueapi/http/multipart (Http/Multipart): the configuration, files and parts in the module
--     itself; Headers for headers_parser.hxx; Strings for string_parser_t, its proofs below it;
--     Files for file_parser_t, with Files/Storage for the parts that are files and Files/Body for
--     the loop over the parts. The file system is a value that the operations pass on.
--   * clueapi/server (Server): Server/Client for data_t and client_t, Server/Pool for the clients
--     of c_server::c_impl and the queue of those without a connection, Server/Connections for the
--     handlers, whose steps may come in any order, Server/Lifecycle for start, stop and the
--     acceptor, Server/Receive for req_handler_t, which reads a request off the socket,
--     Server/Respond for response_handler_t, Server/Session for client_t::start, the loop of both.
--     A pointer to a client is its number; a number that the storage lost is a client that was
--     freed, and its use is `none` or `freed`.
--   * clueapi/modules (Modules): Modules/Dotenv for c_dotenv, its Hash and its Storage, and
--     Modules/Logging for the buffer of a logger and the console logger, each call as one step.
--   * clueapi/impl/clueapi.cxx (App): the states of c_impl, start, the two shutdowns, the handler
--     of the signals and the cleanup. The thread that stop_async makes is an event, `run_task`; where
--     it and a late stop_sync clean up at one time, the outcome is `overlaps`, without a state.
--   * Base has the shared names, lemmas on lists, tests on numbers, and byte strings.
--
-- Numbers are natural numbers; a machine word keeps its wrap-around, as in the hash of dotenv
-- (32 bits), the position of the splitter and the counter of the pool (64 bits). Bytes are numbers;
-- no theorem asks for less than 256 but where it says so.
--
-- Loops: those over a text or a list are structural. The loop of radix_tree_t::insert runs on one
-- round more than the path has bytes, since each round takes a byte off a path; `spinning` is the
-- outcome if they do not do. extract_at and parse_pairs run on as many rounds as the text has
-- bytes, for the same reason. The range-for over the splitter runs on three rounds, since the
-- second piece takes all that is left. find recurses on the tree. The loop over the parts of a
-- body has its own count of 100000 rounds. The loops of file_parser_t that read run on fuel: on a
-- plain file as many rounds as bytes remain in it, and two, are enough. The loop of
-- req_handler_t::stream_handle needs twice as many rounds as bytes are to come, and two. The loop of
-- client_t::start runs on a count of rounds of its own: a peer may ask for ever.
--
-- Parameters stand for code that is not the repository's: fmt's numbers and dates, asio's
-- async_write, Beast's and asio's reads and writes (the records Peer and Wire), the file system
-- (the records Disk and Source), Boost's trim_copy, to_lower_copy, iequals and replace_all, the
-- comparison of parameter names in find, and in App and Server/Lifecycle whether the parts that a
-- start calls succeed (the records World). Each hypothesis on them has an instance among the
-- examples.
--
-- Not modelled: the options of sockets, moving of file_t, the classes of responses, MIME types,
-- middlewares, the configuration, exceptions and the wrapping of awaitables, JSON traits, the other
-- loggers and their registry, the Redis module, and in App waiting, sanitizing of the
-- configuration, adding of routes and the chain of middlewares, which the server is handed as a
-- function and Server/Respond takes as an argument: these are parts for later, or only call code
-- from elsewhere. Copies of third-party code are left out.
pub mod Base
pub mod Shared
pub mod Http
pub mod Route
pub mod App
pub mod Modules
pub mod Server
