-- ===== src/Lib.antt =====
-- mev-boost-relay: a relay between block builders and proposers. Builders submit blocks with bids; the
-- relay checks and simulates them, keeps the auction of each slot in Redis, offers the best bid to the
-- proposer, and reveals the payload once the proposer has signed its header. Vouch validators are held
-- to the protocol's fee recipient.
--
-- The parts and their files:
-- - Prelude, Decimal, Common: Boolean tests, lists over the native numbers, texts as lists of bytes,
--   decimal numbers as Redis holds them, and the types of common/types.go and common/types_spec.go.
-- - Datastore: datastore/redis.go and datastore/utils.go. Server is the interface of a Redis server
--   and a program of commands; Pipeline is a go-redis pipeline, filled and executed; Keys are the key
--   functions; Bids is BuilderBids; Auction is SaveBidAndUpdateTopBid, DelBuilderBid and
--   _updateTopBid, with the helpers they call. Delivered is CheckAndSetLastSlotAndHashDelivered, as a
--   machine for each request and the interleavings of any number of them; its Refinement has the
--   check and write of one request after the other that these implement.
-- - Payloads: common/types_spec.go, what the relay makes of a submission for getHeader and getPayload, and
--   of a signed blinded block. Decoding is how the versioned types are encoded and decoded.
-- - Beacon: beaconclient/multi_beacon_client.go. A node is a record of what it answers.
-- - BlockSim: services/api/blocksim_ratelimiter.go, the counter and the condition variable of Send, as a
--   step relation on a counter, a queue of waiting calls and the calls that are past it.
-- - Registry: services/registry/registry.go. The chain is a record of what its calls give.
-- - Api: services/api/utils.go and services/api/service.go. Forks, Equal
--   (EqBlindedBlockContentsToBlockContents), Submission (the checks of a submission, which ask the
--   registry), Optimistic (simulateBlock, processOptimisticBlock, demoteBuilder), Slot
--   (getSlotFromBuilderSSZPayload) and Floor (checkFloorBidValue, on the datastore's own programs).
-- - Api/Submit: handleSubmitNewBlock, from the decoding of the request through the checks, the floor and
--   the simulation to updateRedisBid, as a program over Redis that gives the answer, what is saved to
--   the database and what becomes of an optimistic builder.
-- - Api/GetPayload: innerHandleGetPayload, with its deferred function and GetGetPayloadResponse of
--   datastore/datastore.go, as a function of what the stores, the database, the beacon nodes and the
--   libraries answer to what they are asked, which gives the answers, the payload, the block and the writes.
-- - Api/GetHeader: handleGetHeader, with the delay of services/api/utils.go and GetBestBid, as a program over
--   Redis.
-- - Api/Head: the duties at the start in StartServer, processNewSlot, updateProposerDuties,
--   prepareBuildersForSlot and processPayloadAttributes, as steps of a relay whose goroutines run in any
--   order.
-- - Api/Registrations: handleRegisterValidator, with the checks of SSZ and JSON requests and
--   GetCachedValidatorRegistration of datastore/datastore.go, as a function of what the stores and the
--   libraries answer.
-- - Tests: runs on concrete inputs.
--
-- What is a parameter, since it is not in this repository: the Redis server (an interface, with one
-- implementation that is a keyspace), the encodings of bids, payloads and traces (Codec), the
-- consensus libraries' hash tree roots and header conversion (Roots), the nodes' and the chain's
-- answers, the submissions' getters, the signature checks, the decoders of each version, the decoder of
-- contract results, the simulation node's answer, and what the database, memcached and, for getPayload,
-- Redis answer the handlers.
--
-- Numbers are natural numbers; a bid's value is the number that its 256 bits stand for; the expected
-- timestamp of a slot wraps at 64 bits, as it does in Go. Decimal.format has fuel for one digit more
-- than its number, which is at most as long. The walk over a node's keys has fuel for a number of
-- batches, and one more than the keys fill is enough.
--
-- Not modelled: the expiry of keys, errors of Redis other than a missing key in the delivery check,
-- the interleaving of the registry's walks, which only add to one set, logs, metrics and waiting
-- times, the decoding of a single JSON registration, the handlers of the data API, the requests to the
-- simulation node, the housekeeper, the database and the website.
pub mod Prelude
pub mod Decimal
pub mod Common
pub mod Datastore
pub mod Payloads
pub mod BlockSim
pub mod Registry
pub mod Beacon
pub mod Api
mod Tests
