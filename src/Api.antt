-- ===== src/Api.antt =====
-- The package `api`: the words that the agent accepts and the tables that relate them.
-- Go's string types (`ProgrammingLanguage`, `OutputType`, …) are texts; a map is its literal, as a
-- list of keys and values; reading a missing key gives the zero value, as in Go.
pub mod Langs
pub mod Outputs
pub mod Tools
pub mod Events
pub mod Json
pub mod EventTypes
pub mod Runtimes
pub mod LogLevels
pub mod Choice
pub mod Tables
pub mod Totality
