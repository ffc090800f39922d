-- ===== src/Lib.antt =====
-- A model of the services of this repository that move customers' money and guard their accounts.
--
-- Amounts of naira are natural numbers of 1/10000 naira, the scale of the numeric(15, 4) columns;
-- times are milliseconds; generated UUIDs are numbers drawn from a counter; jsonb payloads are
-- texts, of which the model keeps what the caller gives, and not the marks and the time that the
-- code adds to them. The overflow of a column, logging and the wording of messages are not
-- modelled: an exception is a constructor of Error. During one request `Date.now()` does not change.
--
-- The payment service (apps/payment/src) is a state monad over its tables, queues and notices:
-- Payment/Store has the state Db, the monad M, whose errors keep what was written before them, and
-- `transaction`, which rolls back like `dataSource.transaction`.
--   Payment/Entities        the rows: wallets/entities, transactions/entities, beneficiaries/entities
--   Payment/Wallets         wallets/wallets.service.ts and address.service.ts: creditForUpdate,
--                           debitForUpdate, getOrCreateWallet, findActive…
--   Payment/Addresses       address.service.ts: provisionAddress and switchProvider
--   Payment/Beneficiaries   beneficiaries/beneficiaries.service.ts
--   Payment/Fees            payouts/fee.util.ts
--   Payment/Provider        providers/payment-provider.interface.ts; the provider is a parameter
--   Payment/TransferCodes   providers/vfd/vfd-transfer-codes.ts, all 46 rows of its two tables
--   Payment/Payouts/Charges payouts/payouts.service.ts: payoutCharges, outflowSince and the caps
--   Payment/Payouts/Initiate  initiatePayout, generateReference (ten draws), saveBeneficiary
--   Payment/Payouts/Reversal  reverseFailedPayout, and bills.service.ts reverseFailedBill
--   Payment/Payouts/Settle  applyTransferResult, syncPayoutStatus, holdForReview, the worker of
--                           payout-status-query.processor.ts, requery of internal.controller.ts
--   Payment/Deposits        transactions.service.ts recordPayin, transactions.processor.ts
--   Payment/Webhooks        webhooks/webhooks.service.ts, which hands over to recordPayin
--   Payment/Bills           bills/: Catalogue is the provider's interface, bill-fee.ts,
--                           biller-rules.ts and the choice of the amount; Pay is payBill, in the
--                           parts prepare (which only reads), charge (the database transaction)
--                           and purchase; Settle is applyResult, markSuccessful, syncBillStatus,
--                           the fetch of a token and the worker; Recipients is
--                           bill-beneficiaries.service.ts
--   Payment/Internal        internal/postings.service.ts and internal/unmatched.service.ts
-- A race is a parameter of the call: the state that a concurrent call commits between a read and
-- the write that depends on it.
--
-- Payment/Ledger gives the database its double-entry reading: the books of a wallet are balanced
-- when its balance and what its rows spent make up what its rows received. A DEBIT spends its
-- amount and fee when it is written, whatever becomes of it; a CREDIT counts once it is SUCCESSFUL.
-- Triple is a Hoare triple for the monad, with a condition for the error; Ledger/Rules has its
-- rules, Ledger/Keeping those of what a computation keeps, with the ruleset keeps_rules,
-- Ledger/Triples and Ledger/Reads the triples of the writes and the reads, and the Books modules of
-- the components apply them.
--
-- The admin console (apps/admin/src):
--   Admin/Desk              postings/entities/posting.entity.ts, the audit log, and claim
--   Admin/Postings          postings/postings.service.ts: approve, reject and cancel, with the call
--                           of common/internal-http.service.ts, which can be answered, be lost, or
--                           be served with its answer lost; Request is request
--   Admin/Console           the entities of staff/entities and auth/entities: the tables Console, and
--                           the services that the code only calls as the record ConsoleConfig
--   Admin/Console/Act       the monad of a request, whose statements commit one by one
--   Admin/Console/Totp, Factors   auth/totp.service.ts; reserveAttempt, checkSecondFactor and
--                           clearTwoFactor of auth/auth.service.ts
--   Admin/Console/SignIn, Enrolment, Sessions   the rest of auth/auth.service.ts
--   Admin/Console/Devices   auth/devices.service.ts
--   Admin/Console/Guards    auth/jwt.strategy.ts, jwt-auth.guard.ts and roles.guard.ts
--   Admin/Staff             staff/staff.service.ts
--   Admin/Requests          the routes of auth/auth.controller.ts and staff/staff.controller.ts that
--                           change state, as the data type Request; serve runs one behind its
--                           guards, and run a list of them, each at its time
-- Admin/Console/Guesses reads lists of checks of a second factor, each a single UPDATE. An invariant
-- of the console is shown once for all requests, or for those that it allows, in
-- Admin/Requests/Always, from the laws of the writes that Steady, Tokenless, Staffless and Deviceless
-- name; Console/Holding has the rules of the monad.
-- An approval calls the model of payment's post and assign, so the two services are one system.
-- Postings/Lifecycle has the diagram of a posting's status, FourEyes who may decide, and Guarantee
-- what a concurrent request may do meanwhile.
--
-- The auth service (apps/auth/src):
--   Auth/Lockout            users/users.service.ts guardedVerify and clearLockouts
--   Auth/Caps               transferCapsFor, setTransferCaps, transferLimitFor; users/tier-limits.ts
--   Auth/Otp                otp/otp.service.ts, one call at a time
--   Auth/Tokens             tokens/tokens.service.ts and token.util.ts: refresh tokens, with a race
--                           before each write of a rotation; Resets has the tokens of a password
--                           reset, and Comeback lists of calls, each at its time
--   Auth/Sessions           sessions/sessions.service.ts, one call at a time
--   Auth/SignIn             the end of a sign-in, and logout, in auth/auth.service.ts, and
--                           endAllSessions of internal/account-admin.service.ts
--
-- The answers of auth's PIN check, of the provider, of the list of banks and the random draws are
-- the record Outside, an argument of initiate_payout. A retry of a queue is a further call of its
-- worker. Loops are recursion on a list, or on the ten draws of a reference, after which the code
-- gives up with an error as well.
--
-- Texts are compared by code points; Common/Chars has trim, the lower case of ASCII letters and the
-- patterns of biller-rules.ts.
--
-- Not modelled: the HTTP providers, which are parsing and calls of a bank; the cache of the bills
-- catalogue, of which what it holds is an argument; what a sign-in checks first, devices and
-- KYC; the pages of the admin console on customers, transactions and the audit log;
-- postoffice; migrations and controllers.
pub mod Common
pub mod Payment
pub mod Auth
pub mod Admin
