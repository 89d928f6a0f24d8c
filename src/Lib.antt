-- ===== src/Lib.antt =====
-- open-unifi: a controller for UniFi access points. A device posts encrypted inform packets; the
-- controller opens them, absorbs what they report into the device's record, decides on an answer,
-- and seals that under the key that opened the packet. The station table of an inform refreshes the
-- client sessions of the record, and their transitions become client events. Devices that are not
-- adopted announce themselves in discovery packets.
--
-- The parts, and the files that model them:
--   * Inform (internal/inform): Packet is the frame (`ParsePacket`, `Serialize`), Pad and Crypto
--     are the payload encryption (`DecryptPayload`, `EncryptPayload`, crypto_cbc.go,
--     crypto_gcm.go), Hex the keys and MACs as text, Codec the loop over the candidate keys
--     (`Decode`), Crypto also the answer (`Respond`), Stations the station tables of a body
--     (stations.go). Bytes are natural numbers in lists.
--   * Store (internal/store): Device is the record, Value its dynamic rows, Keys the names of the
--     rows and their classes, TrustPolicy is `Absorb`, Mac the canonical forms of a MAC, Blocked
--     and CmdTask the admin-owned rows of blockedsta.go and cmdtask.go. Sessions is sessions.go:
--     Sessions/Rows the stored form, Sessions/Refresh the refresh. Db is the store of store.go in
--     memory and in its file.
--   * Wireless (internal/wireless): Wlan and Stored are the envelope and its stored spelling, Plan
--     is plan.go (VAPs, placements, drift hash), Evidence is vap_evidence.go, Delivery is
--     delivery_state.go: `LoadDeliveryState` and `Settle`, in Delivery/Retry `RetryDue` and
--     `Offer`, in Delivery/Watch the watchdogs.
--   * Adoption (internal/server/adoption): Types has the requests, the outcomes and the injected
--     dependencies, Noop the noop scheduler, Lifecycle the armed commands, Mgmt the mgmt_cfg blob
--     (mgmtcfg.go, internal/configtext), Provision the key rotation and the pushes, Plain and
--     Encrypted the two lanes (Encrypted/Connected the arm of a device in its version), Decide the
--     whole decision with its deltas. Admits and Decide/Keys/Steps hold the lemmas on the steps.
--   * Events (internal/clientevents): Event is event.go, Tracker is tracker.go, Presence is the
--     abstract view of the events, where each client is on one access point or on none. History is
--     the in-memory half of filesink.go: order, pruning, queries and the intervals of a client.
--   * Server (internal/server): Sessions is sessions.go, with Sessions/Life the composition of the
--     refresh and the tracker over a sequence of informs; Discovery is discovery.go: the packets,
--     in Discovery/Listener the gates, the replays and the reaction, in Discovery/Reply the
--     answer, in Discovery/Note the note of a candidate. Cycle is `runInformCycle` of server.go, the
--     absorption, the sessions, the decision and its deltas in one update of the store in memory.
--   * Base has the shared names: Boolean tests, lists, results, texts, sorting,
--     maps as association lists (Tables). Examples has the
--     concrete instances and inputs.
--
-- How state is modelled: a Go function that writes through a pointer returns the record or the map
-- that it leaves. A decision is a function of the index of the next key draw; it returns an error,
-- or its value and the index after it, so that a model step is the code's step with the draws
-- counted. Logging is left out. The delivery state of the code holds the map that it was loaded
-- from; here the map is passed beside it. The tracker, the store and the discovery memory are
-- records that each step takes and returns; what a lock makes atomic is one step. A Go map that is
-- ranged over is an association list.
--
-- Parameters, for code that is not in the repository: the block ciphers and the inflater
-- (`Ciphers`, with the laws `IsLawful`), encoding/json (`unmarshal`, `WlanJson`, `Formats`,
-- `StoreJson`), net/url (`Urls`), SHA-256, the floating-point steps of the scheduler (`Jitter`,
-- with the laws `IsLawful`), the random draws, the printing of times and decimals (`Printing`),
-- net.IP and strings.TrimSpace (`NetText`), the host's interfaces (`ReplyMetadata`), `sort.Search`
-- (`Search`, with the laws `IsLawful`), whether a save succeeds. The renderer of system_cfg is a
-- field of `Deps`, as in the code.
--
-- Bounds: the words of a packet are natural numbers, with their ranges as hypotheses and `% 2 ^ 32`
-- where the code converts a length. Numbers in rows are natural ones, which the code's counters and
-- Unix times are; a signal below zero is outside the model. The session rows convert their numbers
-- to float64 and back, with its rounding. Loops are structural recursion, but for four on fuel:
-- `itoa` is given one unit more than its argument, and a number has fewer digits than that; the
-- units of `format_bytes` get the number itself, of which each round keeps a thousandth; the
-- entries of a discovery packet get the length of the data, of which each round reads three bytes
-- or more; the float64 of a number gets ten doublings of its unit, which reach every int64.
--
-- Not modelled: the HTTP, UDP and SSH servers, the file system under the store, the locks, the
-- system_cfg renderer, the files of the event sinks, the administration API, the console, metrics.
pub mod Base
pub mod Inform
pub mod Store
pub mod Wireless
pub mod Adoption
pub mod Events
pub mod Server
mod Examples
