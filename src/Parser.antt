-- ===== src/Parser.antt =====
-- src/parser.h: the parser of the block chain. `Records` has the JSON values that the pages give,
-- `Ids` the counters and their storage, `Process` the processing of one block, `MainFunction` that
-- of a range of blocks.
pub mod Records
pub mod Ids
pub mod Store
pub mod Process
pub mod Dense
pub mod Ring
pub mod Drain
pub mod MainFunction
pub mod Explorer
