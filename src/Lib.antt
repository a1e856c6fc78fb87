-- ===== src/Lib.antt =====
-- The core of Trip2World, a service that pairs strangers for video conversations: how a user waits and
-- is paired, how a conversation goes through its states, how tokens move, who may sign in, and what
-- moderators, jobs and socket events do, and what the browser shows of it.
--
-- The parts, and the code that they model, by paths from the repository's root:
-- - Session: packages/shared/src/session-machine.ts, the states of a conversation in the browser and
--   the table of legal moves (transition, can_skip and the other flags), with transitionTo and skip of
--   apps/web/src/hooks/use-conversation.ts.
-- - Client: the rest of apps/web/src/hooks/use-conversation.ts. Types holds its state and what it
--   emits, Actions what it hands to the page, Frames its handlers of the socket, of the peer connection
--   and of timers, over the server's messages; Inputs runs them. Page is the controls of
--   apps/web/src/app/[locale]/discover/page.tsx, and Delivery carries the server's frames to one
--   client. The other files hold proofs, Stranded and Late of client and server together.
-- - Matching: packages/shared/src/matchmaking.ts, the pure policy: the ladder of relaxation (Stages),
--   hard rules and preferences (Rules), the score (Weights, Score), the choice (Select) and the shards
--   (Shards). The other files hold proofs.
-- - Queue: apps/realtime/src/queue.repository.ts, the state that all realtime nodes share in Redis, as
--   the record Store, with one function for each method (Repository); sorted sets are in Sets. Commands
--   sends the commands of the methods one at a time, in any order, a scan's in two.
-- - Pairing: apps/realtime/src/matchmaker.ts. tryMatch is in two parts: Prepare is a function from the
--   store to the pairing that it wants (it calls Queue and Matching), and Commit is a machine that
--   sends one command to Redis or to the database at a time, so that any number of workers interleave
--   with each other, with users who join and leave, and with keys that expire. Ending is endMatch, and
--   Candidate is buildCandidate, the snapshot that a user waits with.
-- - Tokens: packages/database/src/tokens.service.ts, balances, tips, purchases and their webhooks.
-- - Campaigns: packages/database/src/campaigns.service.ts. A claim is a machine of one statement at a
--   time (Claim), the rest are functions (Service); Steps interleaves claims and the operator's
--   changes.
-- - Accounts: the account table and those who write it. Moderation and Decisions are
--   apps/api/src/services/moderation.service.ts (warn, claim, resolve, resolveDirect, reinstate);
--   Registration, Auth, Refresh and Recovery are apps/api/src/services/auth.service.ts; Restrictions is
--   getActiveRestriction of packages/database/src/queries.ts; Jobs is apps/worker/src/jobs.ts; Gate is
--   the account check of apps/realtime/src/socket-auth.ts and of apps/api/src/plugins/auth.plugin.ts.
--   Calls puts the calls in any order. The other files hold proofs.
-- - Realtime: Presence is apps/realtime/src/presence.ts; Hub, Matches, Handlers, Safety and Lifecycle
--   are apps/realtime/src/server.ts, one function for each socket event, from the sender, the parsed
--   payload and the state of the server to the frames that are sent and the state afterwards; they call
--   Queue, Pairing and, in Tips, Tokens. Events runs them in any order. The other files hold proofs.
-- - Privacy: packages/shared/src/privacy.ts, the public profile (Profile) and ages (Age); and of
--   packages/shared/src/utils.ts the sanitising of texts (Display) and the rollout of flags (Rollout).
-- - Social: apps/api/src/routes/connections.routes.ts and the blocks of
--   apps/api/src/routes/safety.routes.ts, one function for each route that writes (Connections), in any
--   order (Steps). The other files hold proofs.
-- Prelude holds what they share: tests on numbers, lists, texts, integers and tables.
--
-- How the code is rendered. Ids are numbers; user ids are compared as strings in the code, and UUIDs of
-- one length and case are ordered as numbers are. Random ids are arguments, with distinctness as a
-- hypothesis where it matters. Times are epoch milliseconds and are arguments. Scores are exact
-- integers in 1/2000 of a point where the code has doubles. Balances are unbounded where the database
-- has 32-bit columns. Texts are lists of UTF-16 units. A database transaction is one step that is lost
-- whole on an error. Expiry of a key is a step that can come at any time; but a room, which is saved
-- after its users are occupied and has the same TTL, is not taken to expire before they are free. Redis
-- and the database are state that the steps read and write as their commands are documented to. The
-- loops of the code are over lists; a worker that pairs by itself (alone) is given sixteen turns, by
-- which each has finished. Password hashing, token hashing and the signatures of tokens are parameters
-- (Crypto, verify_token), and so is what the database answers for a profile. A job is its reads
-- followed by its writes, between which a moderator's call can come. A payload comes as its schema has
-- parsed it, none when it has not.
--
-- In the hook a handler that awaits the browser's WebRTC calls goes on at once, or later as an input of
-- its own, with what the browser answers as an argument; a timer's callback may come at any time. A
-- connection of the browser that is closed calls no handler, and its pending calls do not succeed.
--
-- Not modelled: the cameras, the sampled quality and the layout of the front end, the handler of
-- telemetry, the reads for the admin pages, and the other helpers of packages/shared/src/utils.ts; and,
-- as input and output or glue, the other HTTP routes, the mailer, the validation schemas, configuration
-- and the other pages of the front ends.
pub mod Prelude
pub mod Session
pub mod Client
pub mod Matching
pub mod Tokens
pub mod Queue
pub mod Pairing
pub mod Campaigns
pub mod Accounts
pub mod Realtime
pub mod Privacy
pub mod Social
