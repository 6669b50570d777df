-- ===== src/Lib.antt =====
-- EACopy copies directory trees on Windows, like robocopy, and faster with the help of a service. A
-- client reads its settings from the command line and copies files; where a server runs beside the
-- destination, the client sends it commands over a socket. The server keeps a database of the files it
-- has received, and links to a file that it has already in place of receiving it again.
--
-- The program's parts and the files that model them:
--
--   Base        lists over the native numbers, ordered maps, numbers and texts as bytes, tests
--   Keys        Hash, FileTime, FileInfo and FileKey of include/EACopyShared.h, with their orders
--   Database    class FileDatabase of source/EACopyShared.cpp. `files` is m_files, a map in the order
--               of its keys. `history` is m_filesHistory, a list of nodes that have an identity, so that
--               a record's iterator may be stale. `file_hashes` is m_fileHashes; its pointers are the
--               addresses of records, so that one may dangle. `none` stands for undefined behaviour.
--               Database/File is the file format, by readFile and writeFile.
--   Paths       the functions on path names of source/EACopyShared.cpp: getCleanedupPath,
--               convertToShortPath, isAbsolutePath, equalsIgnoreCase and others
--   Os          what the code calls of Windows, a record of operations over an unknown state;
--               Os/Memory fills it in with a small machine, for tests
--   Files       getFileInfo, ensureDirectory, deleteAllFiles, deleteDirectory, createFileLink,
--               setFileWritable and copyFile (Copy) of source/EACopyShared.cpp
--   Settings    readSettings of source/EACopy.cpp and ClientSettings of include/EACopyClient.h
--   Network     sendData, receiveData, sendFile (Sending) and receiveFile (Transfer) of
--               source/EACopyNetwork.cpp
--   Server      handlers of Server::connectionThread of source/EACopyServer.cpp: Environment with the table
--               of sessions, and getLocalFromNet (Sessions), WriteFile (Write),
--               ReadFile (Read), CreateDir and DeleteFiles (Directories), FindFiles and GetFileInfo
--               (Listing), and the admission of downloads (Queues)
--   Client      Client of source/EACopyClient.cpp: processFile (ProcessFile), sendWriteFileCommand (Upload),
--               sendReadFileCommand (Download), the other commands (Requests), handlePath, handleFile and
--               what they call (Handle), traverseFilesInDirectory (Traverse), purgeFilesInDirectory (Purge),
--               handleFilesOrWildcardsFromFile and excludeFilesFromFile (Lines), parse_cmdline (Arguments),
--               gatherFilesOrWildcardsFromFile and processQueuedWildcardFileEntries (Gather), and the
--               threads around the queues (Threads, Workers)
--
-- How they interact: a handler of Server is a step on a `World`, that is the database, the directories
-- that the session has created, and the state of the operating system. It calls Files and Network, which
-- are functions on the latter, and Database, whose functions are pure. `give_up` is the code's
-- `return -1`. Environment is a step on an `Access`, that is the table of sessions, what the connection
-- keeps of its own, and the operating system. A critical section is one step, as no other thread can run inside it. A function of the
-- client is in the same way a step on a `Work`, that is its queues, its sets of paths, the database of
-- links, some counters and the operating system; `failed` is the code's `return false`. Client/Exchange
-- and Client/Responses put a handler of the server and a function of the client together, each over its
-- own system. Client/Threads takes the threads' locked sections as moves, in any order; a worker thread
-- has one file in hand at most, and so has the main thread.
--
-- What is asked of Windows beyond the types stands as a law where it is used: Network/Stream of the two
-- streams of a connection, Files/Links of the refusal of a link, Files/Writable of the attributes of a
-- file. The machine of Os/Memory has these laws.
--
-- Numbers are natural numbers; a field of w bits is reduced where the code can overflow it. An int of the
-- command line is its 32-bit pattern. Text is a list of UTF-16 codes without the terminator.
--
-- Loops: ensureDirectory recurses on a fuel of one more than the path's length, as each call is on a
-- shorter path. createFileLink runs a given number of rounds: its own comment says that it should get
-- to the end once. sendData, receiveData and the receipt of a file that is sent as it is run as many
-- rounds as bytes are left, as each round moves one at least. The receipt of a compressed file, and
-- sendFile, run a given number of rounds and say when they do not suffice. deleteAllFiles recurses on the
-- depth of the directories that it is given, and so does the purge. processFile and the other loops with
-- retries recurse on the retries that the settings allow. The loop of copyFile has two rounds more than
-- there are bytes, as each round but the last two lowers what is left. The client's loops over a server's
-- answers run a given number of rounds and say when they do not suffice, as the server can go on. So does
-- the loop over an input file, as after a failed read the code reads the same again; where every read
-- succeeds, two rounds more than there are bytes suffice.
--
-- Not modelled: log lines, counters and timers; the temporary symbolic links for long paths; how the
-- client's process calls its parts, and how it finds and opens a connection; the
-- framing of commands on the server, and its main loop; the service's control code; delta compression and the old rsync,
-- which wrap other libraries. zstd, Windows and the lookup of host names are parameters.
pub mod Base
pub mod Keys
pub mod Database
pub mod Paths
pub mod Os
pub mod Files
pub mod Settings
pub mod Network
pub mod Server
pub mod Client
