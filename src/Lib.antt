-- ===== src/Lib.antt =====
-- Verification of the Front Office SDK's exchange connectors.
--
-- A connector brings a client's orders to one venue: it opens a TCP connection, logs on, keeps
-- the session's sequence numbers in a cache file, answers heartbeats, and turns what it receives
-- into calls of the client's callbacks. src/gwcConnector.h has what all connectors share; each
-- venue derives a class from it.
--
-- - Common: names and lemmas that every part uses: lists and 64-bit integers over the native
--   numbers.
-- - Gwc: src/gwcConnector.h. The states, the shared members, the callbacks, and the list of
--   effects by which a connector is seen from outside, newest first. Gwc/Order is
--   src/gwcCommon.h. Gwc/Env has what comes from outside the repository as a record of
--   parameters: the cdr message (with its laws as IsCdr), the codec (with its bound on the bytes
--   consumed as IsCodec), the clock, the result of `connect`, and the answers of the client.
--   Gwc/Sample is a message to test with. Gwc/Stream is the read loop over decoded messages that
--   Eti, Millennium and SoupBin have in common, Gwc/System has what the `init` functions ask
--   for, and Gwc/Keyed the map from partitions of the first two. Gwc/Wait has the `waitFor...`
--   functions against the `...Event` functions and `reset`, as two threads that take turns over
--   a mutex and a condition variable, which are parameters (with their laws as IsMonitor);
--   Wakeup is about a client that is woken, Lost about one that is not. Gwc/Contract is the
--   class gwcConnector as an interface, with what it promises, and Gwc/Factory the
--   connector factory of src/gwcConnector.cpp, over a loader that is a parameter, and sbfLogCb.
-- - Connectors: the connectors behind that interface. The file Contract of Fix, Optiq,
--   Millennium, Eti and Swx each fills it.
-- - Fix: src/fix/gwcFix.h and src/fix/gwcFix.cpp. Session has reset, error, sendMsg, sendRaw and
--   the sends of orders; Handlers the functions `handle...Msg`; Receive handleTcpMsg, cut at its
--   early returns, and the read loop; Control the connection and timer callbacks, start, stop,
--   and the step function over every event that can reach a connector; Init init, as a chain of
--   attempts; OrderFields mapOrderFields. Errors is about when init succeeds, Invariant and
--   Safety are about the session's invariant, Hearing and Delivery the order of what is
--   delivered, Outbound what is sent, Heartbeats the timer, Stream the read loop, Fields the
--   order fields, Routing the dispatch and the handlers.
-- - MsgWriter: src/fix/msgWriter.h and src/fix/msgWriter.cpp, the rolling file in which gwcFix
--   may record its messages. Rolling is about what a roll does, Sizes about the size that is kept;
--   the count and its limit are ints, and may be negative. In Fix a write to such a file is an
--   effect.
-- - Optiq: src/optiq/gwcOptiq.h and src/optiq/gwcOptiq.cpp, cut in the same way, with init in
--   Init; Raw is the read loop with raw messages on. Invariant and Safety are about the
--   session's invariant, Numbers the sequence numbers, Frames the raw stream, Fields the order
--   fields. The codec's constants and the layout of its packet header are the parameters Codes,
--   OrderCodes and Packet.
-- - SoupBin: src/soupbin/gwcSoupBin.h and src/soupbin/gwcSoupBin.cpp, the base class of
--   connectors over SoupBinTCP. Its virtual functions are the record Venue. Session has the
--   session's messages and the sequence number, Receive the read loops, Control the callbacks,
--   start and stop, Init init. Frames is about the raw stream, Numbers about the sequence
--   number, for any venue that satisfies IsVenue.
-- - Swx: src/swx/gwcSwx.h and src/swx/gwcSwx.cpp, the one venue over SoupBin. Venues makes its
--   functions a Venue, OrderFields is mapOrderFields, and Price is about the price it gives.
--   Control has the events of such a connector, Invariant and Histories what they keep.
-- - Millennium: src/millennium/gwcMillennium.h and src/millennium/gwcMillennium.cpp, a connector
--   with two connections: it logs on to the real-time one, then to the recovery one, asks there for
--   what each partition missed, and is ready when all downloads are over. Session has the sequence
--   numbers, reset, error and the sends; Receive the handlers of both connections; Raw the read
--   loops; Control the callbacks, start, stop and the step function; OrderFields mapOrderFields of
--   the template and of its specialisations, Init getConnector and init. Restart is about a cache
--   file that is read again, Kept and Runs are about the numbers in the cache file, Reads and Ends
--   about the read loops, Recovery about the downloads, Null about calls through the pointers of
--   the two connections, Closed about a read that goes on without one, Fields about the order
--   fields. What the codec's packets lay down is the record Layout.
-- - Eti: src/eti/gwcEti.h and src/eti/gwcEti.cpp, for Xetra and Eurex. Session has the sequence
--   number, the ApplMsgIDs, the sends and the requests for retransmission; Receive handleTcpMsg
--   and what it calls; Control, Init and OrderFields as above. Invariant and Histories are about
--   the session's invariant, Numbers the numbers of what is sent, Retrans the requests, Ready
--   how a session becomes ready, Reads the read loop and the heartbeat timer. The 16 bytes of an
--   ApplMsgID are those that the record Ids gives.
-- - Examples: src/examples, the programs that use a connector. Bme, Lse, Swx, Optiq, Xetra,
--   LseRaw and OptiqRaw are one program each: the messages and orders that it builds, the calls
--   that its callbacks ask for, and `main` over an Api, which is what it calls. Orders is about
--   what is never set in an order, Exits and Ends are about the exit code 0.
--
-- A function of the source that changes the object is a function from state to state, with the
-- result beside it. The mutex is recursive, and its depth is part of the state; it is left alone
-- in Eti, which locks and unlocks it in pairs on every path, and in Millennium, which never
-- locks it; a callback, a timer and a call of the client are each one step, as they are under
-- the source's one dispatch thread.
--
-- Loops. The read loops over decoded messages run on as many rounds as there are bytes, which is
-- enough since a codec that succeeds consumes at least one (IsCodec). The raw loop of Optiq runs
-- on one round more than there are bytes, and has no result when they are used up, which needs
-- frames that claim to be empty. Those of SoupBin do the same, since the decoded one also
-- decodes where nothing is left; a raw frame with the length field 65534 counts as empty there.
-- The loops of Eti and Millennium run on as many rounds; a raw frame of Millennium is never
-- empty where the header has two bytes. The loop of `roll` is structural.
--
-- Not modelled: log lines; threads other than the two of Gwc/Wait; overflow of the 64-bit
-- sequence numbers, but for the counter of Eti, which wraps around; a cache file without an
-- item; client callbacks that call back into the connector while it handles a message, but for
-- what those of the examples ask for; what a write to a closed file does; the bytes that a cache
-- file keeps of an item; the order of two callbacks that arrive at once. A call through a null
-- connection is an effect of its own, null_used, after which nothing has a meaning. src/bindings
-- is glue.
pub mod Common
pub mod Gwc
pub mod MsgWriter
pub mod Fix
pub mod Optiq
pub mod SoupBin
pub mod Swx
pub mod Millennium
pub mod Eti
pub mod Connectors
pub mod Examples
