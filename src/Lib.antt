-- ===== src/Lib.antt =====
-- The planning poker backend: rooms in which clients vote with cards on stories.
--
-- Parts and files
--   Room (internal/domain/entity: room.go, room_presence.go, room_voting.go, room_backlog.go,
--     client.go, story.go, event.go, vote.go, time.go): the aggregate. `Room` has the fields of the
--     Go struct; each method is a function from the room to the room and the error that it returns
--     (`Reply`), and `Outcome` adds the panic of a read out of range. Room/Clients is
--     internal/infra/boundaries/hub/clientcollection; Room/Votes, Room/Consensus and Room/Reveal are
--     `collectVotes`, `calculateConsensus` and `reveal`; Room/Presence, Room/Voting, Room/Backlog and
--     Room/BacklogMoves are the methods that clients call; Room/Guards has their first checks and
--     Room/Commands makes data of the calls. The other files of Room hold proofs.
--   Deck (internal/domain/entity/deck.go), DomainError (internal/domain/domainerror).
--   Hub (internal/infra/boundaries/hub/inmemory/hub.go): rooms by pointer in a heap, snapshots with
--     versions, removal channels and buses. `RemoveClient` of the hub is `remove_client_from_hub`.
--   Dto (internal/application/planningpoker/usecase/dto/commands.go): the room state message.
--   UseCase (internal/application/planningpoker/usecase): one function for each `Execute` that
--     loads a room, calls a method, saves and broadcasts: `execute_vote`, `execute_reveal` and so on,
--     all by `on_room`. UseCase/Dispatch is `mapUsecases` of internal/infra/bus/websocketbus.go,
--     UseCase/Membership has leaveroom.go and createroom.go with the metrics that they count,
--     UseCase/Join joinroom.go with its rollback, and UseCase/Administration the removals by an
--     administrator.
--   Ledger (internal/infra/boundaries/commandledger/inmemory/ledger.go): the commands that are
--     running or done.
--   Bus (internal/infra/bus: websocketbus.go, command.go, ledger.go): what a message of a client
--     does. `process` and the functions that it calls are named as in the code; Bus/Wiring fills
--     the ledger and the use cases that it is given.
--   Redis (internal/infra/boundaries/hub/redis, internal/infra/boundaries/commandledger/redis,
--     internal/infra/lock/redis.go): Serialization is serialization.go; Rooms, Buses and Clients are
--     the parts of hub.go, Redis/Refinement has the save that both hubs promise; Ledger and Lock are
--     the ledger and the lock that the instances share; Client is the interface of the server and
--     Script the text replacement of a script.
--   Protocolgen (tools/protocolgen: spec.go, golang.go, typescript.go, docs.go, main.go): the generator of
--     the protocol types. Value and Yaml are what the decoders give, Pointers and Documents the
--     references between files, Keywords the keywords of a schema, Loader `schemaLoader`, Loading
--     `newSchemaLoader`, Asyncapi and Contract the messages, Spec `loadSpec`, Names the Go names; Go,
--     GoMessages, TypeScript and Docs are the printers and Generate `generateArtifacts`.
--   Base: lists, integers, numerals, sorting and maps that the parts share; Float32: the interface of
--     Go's float32.
--
-- How the code is read
--   The parts meet as in the code: a use case reads the address of its room from the hub, the method
--   changes the room at that address in place, the save copies it to the snapshots, and the
--   broadcast reads the room of the identifier again. A lock makes a use case one step, and a mutex
--   a call of the hub or the ledger. The aggregate keeps its own clients as a list; a write through
--   the pointer that a search returns is a write to the first client of the identifier.
--   A use case that panics ends with the hub as it is at that moment (`Ran`), which the calls after it
--   find, as the server recovers the panic; `process` of the bus says only that it panics.
--   Go's float32 is a type with the operations that the room uses, and no law is asked of it. What
--   `time.Now()` returns is an argument, one for each place that reads it, and so are identifiers
--   from `uuid.NewString`. `slices.SortFunc` over the clients of a room, which sorts in place, and the
--   answers of the buses are arguments of the use cases. Go maps are association lists, read in the
--   order of the list. A nil slice and an empty one are one list. An error keeps its format and its
--   arguments. Integers of the room are unbounded; versions wrap at 64 bits. Loops are recursion on
--   the list that they walk, or on the attempts that are left, so there is no fuel but in the generator.
--   There the parse of a schema has the size of the document as fuel, and what follows references has
--   the number of definitions, or of parsed schemas, and one more.
--   A decoded map of the generator is the list of its entries in the order of the sorted keys, and a
--   number the text that `strconv.FormatFloat` writes for it. A file is read as often as it is asked
--   for, so the files do not change during a run. The loops over Go maps, which only choose between
--   errors there, go in the order of a list. A printer gives the text that the builder holds at its end.
--   Redis is a state with the commands that the code sends, of which named laws say what a read gives
--   after a write. A call fails when the server cannot be reached, and changes nothing then.
--   `cjson.decode`, `encoding/json` and `uuid.Parse` are interfaces too. The `string.gsub` by which
--   a script writes the version of a room is a function in Redis/Script, on texts as lists of
--   symbols; what it relies on of JSON is `IsWritten` in Redis/Client. The versions that Lua counts are
--   unbounded, while Lua writes them as JSON does below 10^14. Times to live are not counted down: what
--   runs out between two calls of the server is part of a step `pause`, of which nothing is asked but by
--   named hypotheses. A write to a socket never fails for the bus, which ignores the error, and is
--   listed with what it writes.
--
-- Not modelled
--   The reading and the writing of a socket, its pings and its closing; the goroutine that listens to
--   a subscription and the closing of the Redis hub; the mutexes of the lock in memory; the HTTP
--   handlers, the generated protocol types, the command line of their generator and the writing of its
--   files, the configuration, and the frontend.
--   Interleavings of two use cases on one room are left out; `UpdateName`, which takes no lock, is
--   one step too. The use cases run over the hub in memory only.
pub mod Base
pub mod Deck
pub mod DomainError
pub mod Dto
pub mod Float32
pub mod Hub
pub mod Ledger
pub mod Redis
pub mod Room
pub mod UseCase
pub mod Protocolgen
pub mod Bus
