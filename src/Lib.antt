-- ===== src/Lib.antt =====
-- Veilforge: a model of the parts of the program that guard the publication of a report.
--
-- Veilforge analyses Solidity projects for leaks of confidential data and can publish the hash of a
-- report in a registry contract on the networks Arc Testnet and Arc Mainnet. A browser context asks
-- the coordinator for an intent, checks the network and the transaction, asks the wallet once, and
-- follows the transaction to its confirmation. The hashes identify reports, addresses and
-- functions of the contract.
--
-- Base: shared names over the native natural numbers, Boolean tests, lists, results of functions
--   that throw, texts as lists of code points, bits.
-- Coordinator: apps/web/v4/proof-send-coordinator.js. Record is parseRecord and what write stores
--   (PROOF_SEND_STATES, LEGACY_STATE, HASH); Methods has one function per method of the object that
--   createProofSendCoordinator returns, from the stored cell to the result and the next cell.
--   The storage is one cell, since every method touches the key of its intent only. A cell is the
--   value that JSON.parse makes of the stored text, or a corrupt text; numbers that are no safe
--   integers and fields of other types are told apart where the source tells them apart. A method
--   runs under an exclusive lock of its intent, so it is one step, and calls of several contexts
--   are a list of steps (Trace), each with its time. Once, Ownership and Graph are about such lists.
-- Hash: packages/analyzer/src/keccak.js (Keccak) and apps/web/v4/runtime/browser/sha256.js (Sha256).
--   Lanes of 64 bits and words of 32 bits are natural numbers, cut with % where the source cuts with
--   a mask or >>> 0. The loops over blocks and rounds are recursion on their number and on the list
--   of constants; no fuel is used. A string is its list of bytes: TextEncoder is left to the caller.
-- Proof: packages/proof/v4/network.js (Network, Trust) and packages/proof/v4/mainnet-readiness.js
--   (Readiness and its children). Throwing functions return a result whose error has the source's
--   code; of its details only the field is kept. JavaScript's Number of a text that is not in
--   hexadecimal form, and the URL constructor, are parameters of the definitions that use them
--   (to_number, parse_url), and no property assumes anything of them. A missing configuration
--   object is not modelled, and extra members of a configuration are dropped.
--
--   Registry is packages/proof/src/registry.js, lines 19 to 159: the call of publishReport as text and
--   its canonical decoding. TextEncoder and a fatal TextDecoder are parameters (encode_utf_8,
--   decode_utf_8); the score is what Number makes of it. Number.toString(16) runs on as much fuel as
--   the number itself, which is enough since each turn divides it by 16.
--
-- Send: apps/web/v4/proof-transaction-acceptance.js. Review is what must hold before the wallet is
--   asked, Submit the submission itself, from the claim of the intent through the wallet's request to
--   the handler, on the coordinator's stored cell. Outcomes of calls of other files (the provider, the
--   envelope's verification, the preflights, notifications, the clock) are fields of the records
--   Facts and Surroundings, about which nothing is assumed; the digests, which Web Crypto computes, and
--   TextEncoder are parameters. Surroundings also has the calls of the coordinator that
--   other contexts make before each call of a run after its claim, so that submissions may overlap.
--
-- Cfg: packages/analyzer/src/v4/ir/cfg.js and cfg-builder.js. Graph has makeBlock and addEdge on the
--   lists of a builder, Builder, Stages and Build the methods for statements, from the syntax tree that
--   Statement models, and Finish the constructor and build. A block is named by its id: the maps hold
--   what the lists hold. The digests that make ids are a parameter (Ids), of which nothing is assumed,
--   not even that different blocks get different ids; an id is the number that a digest spells.
--   The recursion is on the statement. Locations, and the diagnostics of expandedFlow, are left out.
-- Analysis: reachableFrom and buildAdjacency of packages/analyzer/src/v4/analysis/call-summary.js and
--   markRecursiveEdges of packages/analyzer/src/v4/ir/call-graph.js. Maps are association lists. The
--   loops run on fuel, one turn more than there are targets in the map, which the properties show to
--   be enough: each turn takes a node off the worklist or spends the targets of a new one.
--   Facts is analysis/merge.js and analysis/fact-lattice.js up to the signature of states: the condition
--   of an edge, a state across an edge, the merge of facts and of states. Ids, keys and the JSON texts of
--   conditions are numbers; JSON.stringify and the locations of blocks are parameters. Of the members of
--   a fact, those that a merge only carries along are one field.
-- Sources: packages/analyzer/src/v4/frontend/standard-json.js. Paths is normalizeSourcePath and the
--   text part of normalizeSourceContent, Bundle is normalizeSourceBundle with the order of paths. Texts
--   are lists of UTF-16 code units. normalize('NFC') and toLowerCase are parameters; of the first the
--   properties assume what IsNormalization (Sources/Segments) lists, of the second nothing.
--   Comments is withoutComments of packages/analyzer/src/v4/frontend/import-graph.js.
-- Worker: apps/web/v4/runtime/worker-client.js. Client has the variables of createWorkerClient as a
--   record, terminate and the message handler; Calls has abort, scan, dispose, the timers, and events
--   as a list of steps, each with what posting its message throws. scan is two steps, before and after it awaits ready. Promises are numbered.
--   Limits is apps/web/v4/runtime/limits.js.
--
-- Not modelled: the inspection of an existing transaction and the wait for its receipt in
-- proof-transaction-acceptance.js, which read from a provider; the requests to a wallet in registry.js;
-- of the analyzer, what the parts above leave out, since it rests on the Solidity compiler's trees and
-- on tables of rules; the web pages, the command line and the SDK, which read and write files and windows;
-- randomOwnerId, which draws from the platform's random numbers, and the freezing of objects.
pub mod Analysis
pub mod Base
pub mod Coordinator
pub mod Hash
pub mod Proof
pub mod Cfg
pub mod Sources
pub mod Worker
pub mod Send
