-- ===== src/Lib.antt =====
-- Verification of the EdgeX device service for RFID readers that speak LLRP.
--
-- The program talks to RFID readers. `pkg/llrp` has the protocol: message headers and types (messages.go),
-- parameters (params.go, msg_builder.go), the generated codec (generated_*.go), and the client (reader.go),
-- whose two coordinators, `handleOutgoing` and `handleIncoming`, share one connection and a map of awaited
-- replies. `internal/retry` calls a function again with growing waits. `internal/driver` is built on both.
--
-- Files and what they model:
--   Prelude        shared names, tests, lists by native numbers, Go's results, the bitwise or
--   Llrp/Bytes     byte slices and encoding/binary: a read out of range is a panic
--   Llrp/MessageTypes, Llrp/Header, Llrp/Messages     pkg/llrp/messages.go
--   Llrp/Params    pkg/llrp/params.go, msg_builder.go (`encodeParams`)
--   Llrp/Status    `LLRPStatus`, `ParameterError`, `FieldError` of generated_unmarshal.go and
--                  generated_encoder.go, with `Err` of params.go
--   Llrp/Fields    what the generated readers and writers are made of, one function for each of the
--                  statements that generated_unmarshal.go repeats: a sub-parameter that has to stand
--                  somewhere (`required`), that may (`optional`), one of several (`one_of`), the loops over
--                  groups of them (`group`, `mixed_group`), arrays and bit fields; below it, what these read
--                  back of what was written
--   Llrp/ParamTypes     the parameter types of generated_structs.go
--   Llrp/Codec     the structs of generated_structs.go with their readers (`unmarshal_x`), their writers
--                  (`x_header` for `getHeader` and `EncodeFields`, `marshal_x` for a message) and the cases of
--                  their loops (`x_group1`, `x_group2` in order), in files by subject; RoundTrip, Ends, Endless
--                  and Sightings hold theorems on them
--   Llrp/Replies, Llrp/Requests     the messages of a status, of an identifier and without fields, in
--                  generated_unmarshal.go and generated_marshal.go
--   Llrp/Client    pkg/llrp/reader.go: one function for each step of `handleOutgoing`, for `passToHandler`,
--                  `sendToken.cancel` and `Close`; a run is a sequence of these steps in any order
--   Llrp/Incoming  pkg/llrp/reader.go: `readHeader` and the loop of `handleIncoming`, on a connection that
--                  delivers some bytes; the fuel counts messages
--   Llrp/Exchange  pkg/llrp/reader.go: `SendFor`, `Shutdown`, `getSupportedVersion` and `negotiate`, on what
--                  `send` returned
--   Retry          internal/retry/retry.go: `FError` (Errors), `nextWait` (BackOff), `RetryWithCtx` (Loop)
--   Driver         internal/driver/discover.go: `computeNetSz` and `ipGenerator` (Networks), and
--                  `updateExistingDevice`, `processResultChannel` and the skip of `ipWorker` (Discover);
--                  internal/driver/device.go: `uptimeToUTC`, `processReport` and what `newROHandler` does with
--                  the bytes of a report (Reports)
-- The theorems stand in the modules below each of these, and examples of them in modules named Examples.
--
-- A Go integer is a natural number; sums, products and shifts that may leave its width are written with
-- `% 2 ^ w`. Results are `Outcome`: a value, an error value, or a panic. A reader of the codec is the value
-- that it leaves on success; a receiver that is partly filled when it fails is not modelled, but for
-- `Header.UnmarshalBinary`. The nested readers of `ParameterError` run on fuel, one more than the number
-- of bytes; each call consumes at least four of them. The loops over sub-parameters have the same fuel:
-- a round that reads `data[4:subLen]` takes four bytes at least (`within`). A number that stands for itself,
-- such as a LoopSpec, is read from `data[4:]` whatever its length says (`beyond`), and may take none.
-- A signed field of the codec is its bit pattern, and `|` of disjoint fields is a sum. Each receiver is
-- taken to have its zero value. The loop of `ipGenerator` has the size of the network as fuel, which is
-- more than its hosts. The loop of `RetryWithCtx` runs over a list of rounds, which holds what the clock,
-- the random numbers, the context and the function give.
--
-- In the client, a reply channel is a number, and its messages and closings are logs. Writes to the
-- connection succeed. A handler other than that for KeepAlive is known by how much it reads.
--
-- Not modelled: logging, the texts of errors, timeouts and deadlines of the connection, the stringer
-- tables, the JSON names of the generated structs, the writers of EPC96, TagReportData, ClientRequestOp and
-- ROAccessReport, the connections of devices and the commands of the driver, and the EdgeX SDK: discovery
-- has its service as a parameter, `Registry` with the laws `IsRegistry`, which the list of devices in
-- Driver/Discover/Listed fulfils.
pub mod Prelude
pub mod Llrp
pub mod Retry
pub mod Driver
