-- ===== src/Lib.antt =====
-- yijinjing-lite: journals of frames in memory-mapped page files, shared by processes.
--
-- A journal is a sequence of page files of 128 MB. A page has a header and then frames, one behind
-- the other; the status byte of a frame tells readers whether it is written. A `JournalWriter`
-- appends frames to one journal, a `JournalReader` merges several journals by time, and both get
-- their pages from a `PageProvider`: the local one maps files itself, the client one asks the page
-- engine through a block of shared memory. The engine counts the users of each page file, keeps the
-- files mapped, and is asked over a socket to register clients and their journals.
--
-- The files and the code that they model (below include/yijinjing):
--   Constants        utils/constants.h, status bytes of journal/FrameHeader.h and PageHeader.h
--   Memory           bytes, loads and stores of the fields of packed structs, pointer arithmetic
--   Hash             utils/Hash.hpp (MurmurHash2)
--   Frame            journal/Frame.hpp, FrameHeader.h: getters, setters, `next`
--   Page             journal/Page.h, Page.cpp, PageHeader.h: the cursor and its loops, finishPage.
--                    Page.Log is the abstract view: the list of messages that a page holds
--   FileName         journal/PageUtil.cpp: names of page files, to_string and atoi
--   Directory        journal/PageUtil.cpp: GetPageNums, GetPageNumWithTime, RemoveJournal
--   World            journal/PageUtil.cpp: LoadPageBuffer, ReleasePageBuffer, FileExists, over a
--                    state of files and mappings; World.Effect is code that may stop with a fault;
--                    World.New.Healthy says that every call of the system succeeds
--   Comm             journal/PageCommStruct.h: the message blocks and their order
--   Map              std::map as a sorted association list
--   Provider         journal/PageProvider.h, LocalPageProvider.cpp, Page::load of Page.cpp
--   Provider.Client  journal/ClientPageProvider.cpp against the engine
--   Journal          journal/Journal.h, Journal.cpp
--   Writer           journal/JournalWriter.cpp, JournalHandler.cpp. Writer.Log is the abstract view
--                    of a journal, the list of messages over its page files, and when a disk holds it
--   Reader           journal/JournalReader.h, JournalReader.cpp. Reader.Merging is the reference, a
--                    merge of lists of messages by time; Reader.Merge is the reader against it
--   Engine           paged/PageEngine.h, PageEngine.cpp, PageServiceTask.cpp: Engine.Pages the page
--                    counts, Engine.Clients the clients and blocks, Engine.Service the rounds of
--                    the threads, Engine.Steps all of these as steps in any order, Engine.Life the
--                    threads from start to the end of stop_all, with run, handle_accept and stop of
--                    paged/PageSocketHandler.cpp
--   Socket           paged/PageSocketHandler.cpp (process_msg), journal/PageSocketStruct.h, and the
--                    requests of journal/ClientPageProvider.cpp
--   Timer            journal/Timer.h, Timer.cpp: NanoTimer, times as text, and strptime and conv_num,
--                    which the library brings for Windows
--   Journey          a writer and then a reader of one journal, from its first frame on
--   Turns            several writers on one disk, whose calls come in any order; Writer.Confined says
--                    what a call leaves of the other journals
--   Queue            a writer and a reader of one journal that run side by side, and the queue that
--                    they make; Reader.Growth is a reader in a journal to which a frame is added
--   Tests            concrete inputs for the theorems
--
-- The state. `World` holds the disk (files are inodes with bytes; all mappings of a file are its
-- bytes, as MAP_SHARED has it), the blocks, and the engine's fields. Code that may throw, exit or
-- dereference null gives a fault beside the state that it has left. A pointer into a page is the
-- inode with an offset. A value of `short`, `int` or `int64_t` is its bit pattern, and comparisons of
-- such values read the sign. `Os` holds what the system answers: which calls succeed, what a folder
-- lists, regular expressions, which processes have ended, and the readings of the clock.
--
-- Loops. The loops over frames and pages take fuel. A loop over a page needs one more than the
-- frames in front of the cursor, which is a hypothesis of the theorems about it; turning one page
-- takes two rounds. strptime calls itself at most twice deep, so a depth of 3 is enough. A loop
-- over blocks, journals, files, tasks or the bytes of a text is structural. The endless loops of
-- the threads and of `startVisiting` are modelled by one round, and Engine.Rounds makes any number
-- of them.
--
-- Interleavings. The engine takes its mutex around every operation, so each is one step. A writer
-- has no lock against its readers: its stores to the page are the statements of Writer.Store, and a
-- reader may look between any two of them. The calls of several writers, which share no page, or of
-- a writer and a reader, come in any order, each as one step. The threads of the engine go on one
-- at a time, in any order, from one access to a flag, to the mutex or to a socket to the next.
-- Reordering of stores by the hardware is not modelled.
--
-- Steps that are coarser than the code. The engine's answer in start_comm stores the status and
-- last_page_num of a block at once; a client that posts again between the two is not modelled. The
-- three stores of setData are one statement of Writer.Store, as they come in front of the status.
--
-- Not modelled: the logger and the copies of spdlog, json and CLI11; CPU affinity and the time that
-- a thread sleeps between two rounds; the readings of the clocks, which are arguments; the variants
-- for Windows and macOS, but for strptime; the transport of the socket; the programs under test.
-- The names in a block of PageCommMsg are lists of bytes, so that a name that is too long for its
-- array of 100 or 30 bytes is not cut and does not run over. `get_page_header` opens every file that
-- is there.
mod Prelude
mod Constants
pub mod Memory
pub mod Hash
pub mod Frame
pub mod Page
pub mod Writer
pub mod Map
pub mod World
pub mod FileName
pub mod Comm
pub mod Engine
pub mod Provider
pub mod Directory
pub mod Journal
pub mod Reader
pub mod Socket
pub mod Journey
pub mod Turns
pub mod Queue
pub mod Timer
pub mod Tests
