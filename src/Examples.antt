-- ===== src/Examples.antt =====
-- Runs of the definitions on concrete inputs, with the theorems applied to them.
mod Platforms
mod WireRuns
mod CodeRuns
mod DecoderRuns
mod FountainRuns
mod PeelingRuns
mod RelayRuns
mod TransportRuns
mod SessionRuns
mod WasmRuns
mod LinkRuns
mod PathsRuns
mod ReaderRuns
