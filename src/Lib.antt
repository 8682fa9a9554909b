-- ===== src/Lib.antt =====
-- Zvonilka, a messenger: a model of its moderation, its notifications, its presence and the fragments
-- of its federation, translated from the Go sources under internal/domain.
--
-- Parts and how they interact. A conversation has members, and moderation decides which of them write:
-- restrictions of accounts, policies of targets and rate limits, each change announced by an audit
-- action and a sync event. A message that was written is fanned out to deliveries, by who is a member,
-- what each account prefers and whether it is present; workers claim the deliveries under leases and
-- settle or retry them. Presence derives what an account shows of its last activity. Federation
-- carries bundles to another server, over constrained links in fragments, which are claimed under
-- leases in the same way.
--
--   Base            strings (strings.TrimSpace, strings.Cut), maps, time.Time, errors as results
--   Conversation    internal/domain/conversation
--     Models        models.go, moderation.go, errors.go; Events: the events of models.go
--     Params        params.go: the parameters of the moderation operations
--     Store         teststore/moderation.go and the reads of conversations.go, members.go, topics.go,
--                   with events.go: Rows (maps, keys, reads), Writes, Frames (what a write leaves alone)
--     Moderation    Target (policy.go: keys, lookup, canModerate, inheritance), RateLimit (ratelimit.go),
--                   Audit (audit.go), Policy (policy.go: SetModerationPolicy), Restrictions
--                   (restrictions.go), Reports (reports.go). count_write is
--                   RecordModerationWrite; publish.go has the same lines for the writes of
--                   messages.
--   Notification    internal/domain/notification
--     Models        models.go, settings.go
--     Routing       routing.go: recipientIDs, routeDecision, shouldDeliver, quietHoursActive
--     Building      routing.go: buildDeliveries
--     Backoff       service.go: retryBackoff
--     Deliveries    service.go and teststore/store.go: claims, leases, settlement, retries, cursors
--   Federation      internal/domain/federation
--     Models        models.go; Params: params.go; Store: the maps and the reads of teststore/store.go
--     Peers         peers: creation, update, rotation of the signing key, authentication (service.go)
--     LinkForm      the normal form of a link (models.go); Links: its operations (service.go)
--     Security      security.go: hash and tag of a bundle
--     BundleRows    the normal form of bundles and cursors, and their writes; BundleReads: BundlesAfter
--     Bundles       saveBundle of service.go: QueueOutboundBundle and AcceptInboundBundle
--     Replication   pulling, pushing and acknowledging bundles, and the cursor of those applied
--     Carried       worker.go: which events a link carries; Batches: buildOutboundBundles
--     Worker        worker.go: applyPendingInboundBundles
--     Exchange      worker.go: processBridgeLink, pushOutbound and queuePendingOutboundEvents
--     Intake        worker.go: pullInbound; Polling: processPeerLink and processOnce
--     Fragments     fragments.go: splitPayload, fragmentsComplete and the other tests
--     Leases        teststore/store.go: ClaimFragments, HasClaimableFragments, AcknowledgeFragments
--     FragmentRows  the normal form of fragments (models.go), SaveFragment and FragmentsByBundle
--     Bridge        fragments.go: bridgeLinkByServerAndName, saveFragment, quarantineInboundFragments
--     Parts         ensureOutboundFragments; Assembled: assembleInboundBundleIfComplete
--     Submissions   SubmitBridgeFragments; Pulls: PullBridgeFragments, AcknowledgeBridgeFragments
--   Presence        internal/domain/presence: service.go, resolve.go, teststore/store.go
--   Scenarios       concrete stores and runs
--
-- State and operations. A store is a record of maps, an operation a function from the store and its
-- parameters to a result that holds the new store; an error holds none, as WithinTx rolls back. Where
-- an operation makes several transactions (Replication, Bridge, Exchange), an error comes with the
-- store that is left. The clock and the ids that are drawn at random are arguments; the service and
-- its store read the same clock. A string type with declared constants is a data type of these
-- constants, so that the errors for unknown constants do not arise. strings.ToLower is modelled on
-- ASCII letters. Errors are the sentinel errors of the domain; the texts that wrap them are left out,
-- and so are the checks for a cancelled context. Locks are left out: each operation of a store runs
-- under its mutex, so a run is a sequence of operations.
--
-- Numbers. A time is a number of nanoseconds since Go's zero time, which is 0; a duration is an
-- integer. Times before the zero time, and the saturation of time.Sub at 292 years, are not modelled.
-- uint64 counters wrap around. int counts, such as attempts, do not: a count of attempts does not come
-- near 2 ^ 63.
--
-- Fuel. split_from runs on the length of the payload: each round takes at least one byte, and the join
-- of the parts is proved to be the payload, so the fuel is enough. decimal, the digits of a duration
-- in an event's metadata, runs on the number itself. batches runs on the number of events: each round
-- takes one, and it is proved to end with all of them dealt out.
--
-- Parameters. The time zone database gives the local minute of the day (`local_minute`), the identity
-- store the accounts, sessions and devices (`IdentityReader`). SHA-256 and HMAC (`Digests`), JSON and
-- gzip (`Encoding`) are functions; the operations of the conversations on an applied bundle are one
-- function of the worker (`apply`). The client of a peer (`Client`) has three operations on a state of
-- its own. The reads of the conversations by the worker are functions (`events_after`, `kind_of`).
-- Random ids and tokens are arguments, `none` where the random source fails. `text_of` gives the text
-- of an error with what wraps it, which a quarantine writes into the link. The lifetime of a
-- fragment's lease is an argument.
--
-- Not modelled: messages and their publication, members, topics, invites, sync, preferences and push
-- tokens, the timers of the workers and the transports, the events that federation writes into
-- conversations, identity, calls, end-to-end keys, bots, media and search; the SQL stores, the gRPC
-- handlers and generated code.
pub mod Base
pub mod Conversation
pub mod Notification
pub mod Federation
pub mod Presence
pub mod Scenarios
