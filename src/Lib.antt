-- ===== src/Lib.antt =====
-- A model of the middleman of the ToolDAQ services: the process between the devices of a detector
-- and a PostgreSQL database. Devices send write queries over a PUB socket, read queries over a
-- DEALER socket and log, monitoring and plot messages over multicast. Receiver threads collect them
-- in batches; distributor threads wrap each batch in a job; worker jobs decode the batch, group it
-- by table and hand it on through the queues of the data model to the database workers; result jobs
-- turn what the database gave into replies, which a sender thread returns to the devices.
--
-- The files, and the code that each is about:
--   Common, Common/*       Booleans, lists of bytes, options and faults
--   QueryTopic             DataModel/query_topics.h: the topic of a query, by one letter
--   Zstd                   DataModel/ZmqQuery.h, `compressed`, and the calls of libzstd
--   ZmqQuery, ZmqQuery/*   DataModel/ZmqQuery.h: the parts of a message, views of them, replies
--   QueryBatch             DataModel/QueryBatch.h: queries, one buffer for each table, `reset`, `close`
--   Jobs                   the argument structs of the jobs, from the headers of the worker tools
--   DataModel              DataModel/DataModel.h: the queues that connect the tools
--   Distributor, Distributor/*
--                          the loop of the four distributor threads, over a store of job structs
--   Decode                 the decompression that WriteMessageJob and ReadMessageJob share
--   WriteWorkers           UserTools/WriteWorkers/WriteWorkers.cpp: WriteMessageJob, its fail
--                          function and Thread (`write_message_job`, `write_message_fail`,
--                          `write_thread`); one round of its loop is `write_message`
--   ReadWorkers            UserTools/ReadWorkers/ReadWorkers.cpp, likewise
--   MulticastWorkers       UserTools/MulticastWorkers/MulticastWorkers.cpp, likewise
--   ResultWorkers          UserTools/ResultWorkers/ResultWorkers.cpp: ResultJob, its fail function
--                          and Thread; ResultWorkers/Reply is the reply to one query
--   Receiver               the receiving half of the receiver threads
--   WriteQueryReceiver     UserTools/WriteQueryReceiver/WriteQueryReceiver.cpp: Thread
--   ReadQueryReceiverReplySender
--                          UserTools/ReadQueryReceiverReplySender/ReadQueryReceiverReplySender.cpp:
--                          Thread (`sender_thread`), whose writing half is `write`
--   MulticastReceiverSender
--                          UserTools/MulticastReceiverSender/MulticastReceiverSender.cpp: Thread
--                          (`port_thread`)
--   SocketManager          UserTools/SocketManager/SocketManager.cpp: Execute, Thread and the slow
--                          controls that drop connections, over DataModel/ManagedSocket.h
--   DatabaseWorkers        UserTools/DatabaseWorkers/DatabaseWorkers.cpp: Thread (`database_thread`),
--                          DatabaseJobFail, GetCachedDevices and GetCachedDeviceConfig
--   DatabaseWorkers/Cache  CacheConfigs and GetCachedConfigs
--   DatabaseWorkers/Job    DatabaseJob as a whole (`database_job`)
--   DatabaseWorkers/Reads  the loop of DatabaseJob over the read queries: one round over a batch
--                          (`read_round`), and all of them (Reads/Batches)
--   DatabaseWorkers/Server what DatabaseJob uses of libpqxx
--   DatabaseWorkers/Inserts
--                          the insertions of DatabaseJob: Generics, Feeds (multicast buffers) and
--                          Writes are its sections, Rounds the loop around them with its commit
--   Tests, Tests/*         runs at concrete inputs
--
-- A job is a function from the state that it shares with the other jobs (the data model, the
-- counters, the pool of argument structs) and from its argument struct to the state afterwards. Code
-- that may read past the end of a vector or of a message part, take the front of an empty one or write through a pointer
-- that was never set returns `Outcome`, with a fault for each. The seven buffers of a batch, their
-- errors and their version numbers are functions of the table. A pointer to one of the buffers is an
-- optional table. The jobs that a distributor queues point to their structs in a store, so that two may
-- share one; a job that runs gets its struct by value. The pools of ToolFramework, the clock, the sockets, libzstd, libpqxx and the database
-- are arguments: the functions get what these gave. libzstd is used through `Zstd`, whose law says that
-- decompression into a buffer of the announced size writes that many bytes. The database is a pipeline
-- for the read queries and a `Server`, whose answer may depend on the state of the transaction and on
-- how much it was asked before; a commit empties the transaction and leaves it closed, as the code does.
--
-- Loops over lists are structural. The two loops of DatabaseJob that repeat until nothing fails have
-- fuel: a batch of read queries needs one round more than it has queries, since each further round
-- starts later in the batch; the insertions need one more than the queries, tables and buffers that are
-- not flagged, since each further round had a failure that flagged one of them. Repeated calls of a
-- sender's thread are a list of inputs, one for each call. Each critical section of the code is one
-- step here. The counts of messages and bytes of MulticastWorkers keep their 32 bits, and the other
-- counters are numbers without an upper bound. Opening a connection or a transaction is taken to
-- succeed.
--
-- Not modelled: the copy of libzstd under DataModel, the logger, the start and stop of threads and
-- the reading of configuration files (Initialise, Execute, Finalise), the job manager and the
-- monitoring printout, the small tools, and the classes of ToolFramework and ToolDAQ. The alert that
-- hands a payload to the slow control CacheConfigs has no model either.
pub mod Common
pub mod QueryTopic
pub mod Zstd
pub mod ZmqQuery
pub mod QueryBatch
pub mod Jobs
pub mod DataModel
pub mod Distributor
pub mod Decode
pub mod WriteWorkers
pub mod ReadWorkers
pub mod MulticastWorkers
pub mod ResultWorkers
pub mod Receiver
pub mod WriteQueryReceiver
pub mod ReadQueryReceiverReplySender
pub mod MulticastReceiverSender
pub mod SocketManager
pub mod DatabaseWorkers
pub mod Tests
