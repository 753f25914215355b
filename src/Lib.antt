-- ===== src/Lib.antt =====
-- FORGE, the I/O forwarding explorer: MPI processes of which the first are forwarding servers, and
-- the others clients that send them the requests of a synthetic workload.
--
-- How the parts work together. A client (src/main.c) sends OPEN, WRITE, READ and CLOSE requests to
-- its server. There a listener (src/server/listener.c) gives each request an identifier
-- (src/utils.c) and puts it on the incoming queue (src/fwd_list.c). Handler threads
-- (src/server/handler.c) answer OPEN and CLOSE from a table of open files, and give READ and WRITE
-- to a thread pool (src/handler/read.c and write.c), which sends the client the identifier, receives
-- the data of a WRITE, puts the request into a hash table and announces it to the scheduling library
-- AGIOS. AGIOS calls back (src/scheduler.c) with identifiers, which go on the ready queue. The
-- dispatcher (src/server/dispatcher.c) takes them off, aggregates neighbours for the same file and
-- operation, and gives the batch to the pool, which issues it (src/dispatcher/posix.c) and answers
-- the clients. The pages of the built documentation search themselves: a query is split into words,
-- which are stemmed and looked up in an index that a script loads; the words are highlighted in the
-- pages that are found.
--
-- Which file models what:
--   Identifiers     `generate_identifier` and `generate_pfs_identifier`, as functions on the counter
--   Pointers        `safe_memory_free`, on variables that hold allocated blocks
--   Workload        the roles of the processes, and the sizes and offsets of a client's requests, in
--                   main.c. Unsigned longs wrap at 2 ^ 64; the rounding of doubles is a parameter,
--                   which the theorems on offsets assume exact up to 2 ^ 53.
--   Client          the messages of a client in main.c, the data it writes, and the check of what it
--                   reads. The clock, the handles and the file system are parameters; the rounds of
--                   all clients come in any order: to the files in Client.Validation, and in
--                   Client.Service to one server.
--   Config          the loop over the JSON tokens of the configuration, and the checks, in main.c.
--                   The tokens of the parser, atoi, strtoul and strstr are parameters.
--   FwdList         the circular lists of fwd_list.c, over a memory of `prev` and `next` links. The
--                   loop over a list runs on fuel, and one more than the number of entries is enough.
--   Server.Types    the structures and codes of include/forge.h, and how an operation ends
--   Server.Env      what the server calls: hash tables, with their laws, and the file system; whether
--                   it runs with O_DIRECT, and what memory of posix_memalign then holds
--   Server.Handles  OPEN and CLOSE
--   Server.Batch    the dispatcher's choice
--   Server.System   the state of a server, the listener, the handlers and the jobs for READ and WRITE
--   Server.Dispatch the jobs that issue a batch and answer its clients; the laws of files that its
--                   theorem assumes are in Server.Dispatch.Bytes
--   Server.Pvfs     how a batch is described to PVFS in src/dispatcher/orangefs.c, before it is
--                   issued, and the callbacks; qsort is a parameter
--   Server.Step     the threads as events on the state. An event is what one thread does between two
--                   points where it waits for another; the events may come in any order that the
--                   state allows, and AGIOS may refuse a request or call back for any that it holds,
--                   one or several at a time.
--   Server.Shutdown the count of clients that have finished, over any run of events
--   Server.Service  the events from one request to its answer, in a server that is idle;
--                   Server.Runs has runs one behind another, and the data that they send
--   Server.Ledger   where each request is, and what every event keeps of that
--   Docs            scripts of the built documentation (docs/_build/html/_static), which Sphinx puts
--                   there: Docs.Stemmer, Docs.Splitter and Docs.Search for searchtools.js,
--                   Docs.LanguageData for language_data.js, which repeats parts of it, Docs.Tools and
--                   Docs.Highlight for doctools.js, and Docs.Votes, Docs.Comments, Docs.Forms, Docs.Panels,
--                   Docs.Paragraphs, Docs.Autogrow, Docs.Moderation and Docs.Templates for
--                   websupport.js. A string is the list of its code units (Docs.Text), a regular
--                   expression a matcher (Docs.Regex), and a page a tree of texts and elements
--                   (Docs.Highlight). A dictionary of the index is a function; toLowerCase,
--                   sort, the translation `_` and the functions of jQuery and Underscore are
--                   parameters, but for loops such as jQuery.each, which are written out. A tree of
--                   comments is sorted on fuel, and as much as it has levels is enough; a page is
--                   highlighted on fuel, and one more than its depth is enough.
--   Tests           association lists, files in memory and an insertion sort for the parameters,
--                   and examples
--
-- The queues of Server.System are the sequences that the lists of FwdList stand for. A number that a
-- client sends may be anything; identifiers repeat after 8000001 requests, so statements about all
-- states speak of at most as many.
--
-- Not modelled: MPI, AGIOS and PVFS, which are libraries; jsmn, uthash, thpool, pqueue and log,
-- which are copies of libraries; the parts of main.c that gather times and write the map, time
-- and statistics files; the other calls of PVFS in src/dispatcher/orangefs.c; the end of the
-- threads after shutdown; allocation that fails; of the built pages under docs/_build, the copies
-- of jQuery, Underscore, Modernizr and the script of a theme, the animations and messages of
-- doctools.js and websupport.js, the place of a rectangle in a drawing, and how jQuery shows a
-- result.
pub mod Base
pub mod Identifiers
pub mod Pointers
pub mod Workload
pub mod Config
pub mod FwdList
pub mod Client
pub mod Server
pub mod Docs
pub mod Tests
