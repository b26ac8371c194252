-- ===== src/Protocolgen.antt =====
-- tools/protocolgen: the build tool that reads the protocol's contract (an AsyncAPI document and JSON
-- Schema files), checks it, and prints the Go and TypeScript types of the messages.
pub mod Text
pub mod Value
pub mod Yaml
pub mod Schema
pub mod Keywords
pub mod Pointers
pub mod Documents
pub mod Loader
pub mod Loading
pub mod Asyncapi
pub mod Contract
pub mod Spec
pub mod Names
pub mod Go
pub mod GoMessages
pub mod TypeScript
pub mod Docs
pub mod Generate
pub mod Results
pub mod Index
pub mod Acyclic
pub mod Samples
pub mod Tests
pub mod Messages
pub mod Agreement
pub mod Complete
