-- ===== src/Lib.antt =====
-- distledger is a commission ledger: orders accrue commissions to a chain of agents, commissions
-- settle after a freezing period, refunds claw them back, and agents withdraw what has settled. The
-- library is one Go package over a store interface, with a store in memory and stores over SQL.
--
-- Files, with the code they stand for (paths from the root of the repository):
--   Base, Word             lists, tests, signed integers, maps and texts; int64 with its wrap-around
--   SafeMath               internal/safemath/safemath.go
--   Money                  money.go
--   Errors, Keys, Clock    errors.go, keys.go, and time.Time as the code uses it
--   Commission             state.go and the commission of model.go
--   Withdrawal             withdraw.go
--   Account, Agent         accounts, buckets, ledger entries, agents and bindings of model.go
--   Rules, Idem, Events    rule.go, idem.go, and the events and requests of event.go
--   Memory/Data, Undo, Tx  the data, the undo log and the transactions of store/memory/memory.go
--   Memory/Reader, Writer  store/memory/reader.go, writer.go and withdraw.go
--   Memory/DueWork         the heap of `DueWork` in store/memory/reader.go
--   Memory/Listing         the pages of store.go, and the listings of reader.go and withdraw.go
--   Memory/Store           `Store.Update` and `Store.View`
--   Memory/Books           what it is that the accounts and their entries balance
--   Engine/Config, Binding the ledger, its agents and bindings of ledger.go
--   Engine/Accrual         accrual.go, Engine/Receipt `OnOrderReceived` of settle.go
--   Engine/Shares, Refund  how a refund is shared out, and the refunded order, of reversal.go
--   Engine/Withdraw        the withdrawals of payout.go and their queries, Engine/Payout their payment
--   Engine/Clawback, Risk  the clawback of reversal.go, and risk.go
--   Engine/Settle          one round of settlement of settle.go, Engine/Maintain the heartbeat
--   Engine/Writes          the writes that the handlers make, as an interface: the client is
--                          Engine/Handlers, the instances are Engine/Atomic, Engine/Covered and
--                          Engine/Balanced; the movements of money are one step of it each
--   Engine/Calls           the calls of a ledger as one type, Engine/History sequences of them
--   SelfCheck              selfcheck.go, with one file for each of the invariants I1 to I4
--   Tests                  the theorems at concrete inputs
--
-- A transaction is a function from its state (data, undo log, context) to a result and a new state;
-- the operations of the store are do blocks over the primitive writes of Memory/Tx, each of which
-- notes what it overwrites in the undo log, as the code does. A handler of the engine is a do block
-- over the operations, and a call is a function from the store to an answer and a store. What every
-- operation keeps is a `Keeps` judgement (Memory/Tx/Rules), which `search` composes, and what leads
-- from one property to another, as an increment and its entry do, is a `Leads` judgement. What a read
-- returns in a context that is never cancelled is a `Gives` judgement (Memory/Tx/Gives).
--
-- Integers: the raw arithmetic of Money wraps at 64 bits and the checked one is that of SafeMath.
-- Row ids, versions and loop counters are unbounded. Times are nanoseconds since the zero time, in
-- UTC. Strings are lists of bytes. A context may report an error at any of its checks: it is a
-- function from the number of the check, and what it reports is a cancellation or a deadline. A
-- payout has one for each of its two transactions. Maps are functions into Option, a map of slices reads an absent key as empty, and a binary search is
-- the first index that passes the test. The digits of an int64 are written on 20 rounds of fuel, as
-- many as the buffer of the code has bytes. The levels of an accrual and the rounds of the
-- heartbeat are counted as the loops of the code count them. The walk up the chain of an agent has
-- 4 rounds: the depth grows in each and may not pass 3. Sifting down a heap has as many rounds as
-- the heap has items: the index grows in each. A loop over the pages of a listing may read one more
-- page than there are records: each page but the last has a record that no page before it had.
--
-- Parameters: SHA-256 is a function of the bytes, the payout channel one of the request, and the
-- clock the instant of the call; a rate resolver or an eligibility checker of the caller is a
-- function. Not modelled: the log, the mutex of the store (a transaction runs alone), the texts of
-- errors, white space beyond ASCII, the SQL stores (their work is SQL text), and the self check of a
-- store that reconciles by itself, which the one in memory does not.
pub mod Base
pub mod Word
pub mod SafeMath
pub mod Errors
pub mod Money
pub mod Clock
pub mod Keys
pub mod Commission
pub mod Withdrawal
pub mod Account
pub mod Agent
pub mod Rules
pub mod Memory
pub mod Idem
pub mod Events
pub mod Engine
pub mod SelfCheck
pub mod Tests
