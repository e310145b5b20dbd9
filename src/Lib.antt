-- ===== src/Lib.antt =====
-- CashFB backend: a model of the services that move coins, prizes and subscriptions, run match
-- rooms and keep sign-in sessions.
--
-- The program is a set of services over MongoDB collections. A service method reads documents for
-- advisory checks, then writes in a transaction whose filters decide. Here a collection is the list
-- of its documents in natural order, a service's state is a record of collections, and a method is a
-- function from the state to its result or error and the new state (Shared.Exec). What other requests
-- commit between the advisory reads and the transaction is an argument, `between`; a method without
-- it runs alone. The driver is an interface (Shared.Mongo): its documented behaviour is the
-- hypothesis `IsMongo`, which the list-backed `driver` satisfies.
--
-- Files and the code they model (paths below src/):
--   Prelude             Boolean tests, lists and signed amounts over the native numbers
--   Shared.Errors       shared/errors/AppError.ts
--   Shared.Mongo        shared/repositories/_base.repository.ts, over the driver
--   Shared.Tier         shared/models/_tier.ts: userCanAccessTier, deriveCurrentTier,
--                       deriveTierExpiresAt
--   Shared.Age          shared/utils/date.ts: ageInYearsIst
--   Shared.User         shared/models/User.model.ts, the fields that are read or written
--   Shared.Double       products with 0.7 and 0.3 rounded as doubles
--   Shared.Tds          shared/services/tds.ts: computeTds194BA
--   Wallet.Votes        modules/votes/votes.service.ts: castVote, getTodayStatus
--   Wallet.Posts        modules/posts/posts.service.ts: completePost, listForDate, getById
--   Wallet.AdminCoins   modules/admin-users/admin-users.service.ts: adjustCoins
--   Wallet.History      modules/users/users.coins.service.ts: listTransactions, getBalance; Walk is the
--                       client that follows nextCursor, Sorting the order of the pages
--   Redeem.Claim        modules/redeem-codes/redeem-codes.service.ts: claim, markClaimed, listForPost
--   Redeem.Kyc          shared/services/kyc.service.ts: evaluateGate, cumulativeFyPrizeValue
--   Redeem.Admin        modules/redeem-codes/redeem-codes.admin.service.ts and redeem-codes.csv.ts:
--                       uploadBatch, publishBatchToPost, voidCode, parseRedeemCodeCsv
--   Redeem.Reconcile    modules/redeem-codes/redeem-codes.reconcile.ts: reconcileCopiedCodes
--   Redeem.Lifecycle    the life of a code as a step relation
--   Billing             modules/subscriptions/subscriptions.service.ts: plans, create, cancel, verify,
--                       the webhook handlers; sweep.service.ts and _subscriptions.pipelines.ts
--   Pools               modules/prize-pools/prize-pools.service.ts: computeAndPublishPool,
--                       getTodayForTier
--   Rooms.Registration  modules/custom-rooms/custom-rooms.service.ts: register
--   Rooms.Viewing       the same file: listForDay, getResult
--   Rooms.Admin         modules/custom-rooms/custom-rooms.admin.service.ts: create, setCredentials,
--                       startMatch, endMatch, enterResults, listAll
--   Rooms.Winners       the same file: assignWinners
--   Rooms.Reachable     the calls on rooms as steps, and the abstract match machine
--   Webhooks            modules/webhooks/webhooks.service.ts: handleRazorpayWebhook,
--                       dispatchAndFinalise
--   Auth.Otp            modules/auth/otp.service.ts over lockout.store.ts: send, verify
--   Auth.Sessions       modules/auth/auth.service.ts: issueTokensAndSession, refresh, logout, logoutAll
--   Auth.Signup         the same file: requestSignupOtp, verifySignupOtp, requestLoginOtp,
--                       verifyLoginOtp
--   Auth.Erasure        modules/users/users.erasure.service.ts and shared/services/force-logout.ts
-- Modules called Tests hold the runs at concrete stores.
--
-- The wallet's collections are shared by votes, posts and adjustments; a claim of a code reads the
-- completions that posts write and the winners that the pools pay; a charge writes the entries that
-- the tier checks read. Sign-up asks the OTP service, opens the wallet's ledger with the bonus and the
-- first session; an erasure request revokes the sessions and sets the cutoff that a refresh obeys.
--
-- Bounds and fuel. An amount, a time and an id are natural numbers below 2 ^ 53, so that sums and
-- products of integers are exact; a coin balance is signed. The rounding of doubles counts excess bits
-- with a fuel of 64, enough for every product below 2 ^ 117. The choice of a referral code has the
-- five attempts of the source, and the client that walks the pages one call for each row and one more,
-- which is enough.
-- Every other loop is structural.
--
-- Not modelled: dayjs, HMAC, token signing, hashing, encryption, CSV parsing, SMS, the payment provider
-- and the driver's sort are parameters; HTTP controllers, logging, sockets, workers and queues are
-- wiring or output. Donations, refunds, invoices, the profile, the anonymisation sweep and the other
-- administration modules are left out.
pub mod Prelude
pub mod Shared
pub mod Wallet
pub mod Redeem
pub mod Billing
pub mod Pools
pub mod Rooms
pub mod Webhooks
pub mod Auth
