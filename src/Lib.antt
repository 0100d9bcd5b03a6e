-- ===== src/Lib.antt =====
-- order-hub: checkout, payment, refund and the store of a hub for orders, as functions, and what
-- holds of them.
--
-- The program is a Go service. A checkout is priced through the offer hub, reserves the offer, the
-- ledger and the inventory, and is stored; a payment callback moves the order on; refunds, closing,
-- cancelling, renewals and the retries of what failed act on the stored order. The domain package
-- holds the amounts and the state machine, the application package the services, which reach the
-- other hubs, the payment channel and the store through the interfaces of port.go.
--
-- Files and code:
--   Prelude, Prelude/*: integers, lists and dictionaries that the other files share. A Go map is an
--     association list, whose order stands for the order in which `range` meets the entries.
--   Domain/Int64: Go's int64, with the wrap-around of its operations written out.
--   Domain/Error: internal/domain/errors.go, and results for pairs of a value and an error.
--   Domain/Status, Domain/Order: status.go, statemachine.go and order.go of internal/domain.
--   Domain/Lifecycle: the state machine as a relation, and series of transitions.
--   Domain/Amount and below: internal/domain/amount.go; Arith, Build, Allocate and LastLine hold the
--     proofs on its operations, on an order's amounts and on the lines' shares of a discount.
--   Domain/Scene, Domain/Event, Domain/Hash: scene.go, event.go and hash.go of internal/domain. A
--     hash covers a document; the digest of a document is a parameter.
--   Port: the records of internal/application/port/port.go.
--   Memory and below: internal/infra/memory/order_repo.go. A method runs under the store's lock, so
--     it is one function from the store to its result and the store.
--   Application/Action: the state that a service changes, which is the store and the list of the
--     calls that left the program, with a monad for early returns. What the other side answers is a
--     parameter, any function of the calls made so far.
--   Application/Preview, Application/Checkout/*: preview.go and checkout.go of internal/application.
--     Price goes up to the amounts, Saga from the reservations to the stored order, Entry is the
--     method as a whole. Saga/Holds reads from the calls what is held at the other hubs, and
--     Saga/Stored says what a stored checkout leaves in the store.
--   Application/Payment, Refund, Outbox: payment_refund.go; Cancel, Query: query_cancel.go; Close:
--     close.go; Renew: renew.go; Compensate: compensate.go; Recon: recon.go, all of
--     internal/application. Application/Keeps: what a method keeps of the store.
--   Memory/Queries: the lists and counts of the memory store; Newest and Paging prove AdminList.
--   Infra/Locks: internal/infra/cache/preview.go without Redis. Infra/Ids:
--     internal/infra/idgen/snowflake.go; the clock is the list of its next readings, so a wait for
--     the clock ends when they do.
--   Infra/Rows, Infra/Sql and below: models.go and order_repo.go of internal/infra/persistence. A
--     database is a record of tables with gorm's operations, and Sql/Atomic names what the store
--     relies on: updates change and count the rows that meet their condition, and a transaction that
--     fails leaves no trace.
--   Infra/Envelope: internal/infra/httpx/envelope.go. Infra/Clients: the Client of offerclient and
--     ledgerclient, and both clients of authclient. A request is a value, and sending it and reading
--     JSON are parameters. Infra/Publishers: internal/infra/outbox/publisher.go.
--   Infra/OfferMock, LedgerMock, PaymentMock: the Mock of internal/infra/offerclient, ledgerclient
--     and payment, which a program without the other hubs calls. Infra/OfferWire: mapQuote of
--     offerclient. Infra/Fulfillment: internal/infra/fulfillment/registry.go.
--   Application/Seed: seed.go of internal/application.
--   Prelude/GoText: what the code uses of the packages strings and strconv. ToLower and ToUpper change
--     the letters of ASCII only.
--   Iface and below: internal/iface/http. Dto is dto.go and the commands that the handlers make; Wire
--     is response.go and writeAppError; Access is middleware.go and AdminAuth; Server is the record
--     Handlers; Handlers and Admin are handler.go and admin.go; Router is router.go. gin's binding of a
--     body and the HMAC are fields of the server, and an endpoint is given, not found by its path.
--     Guards, Owners, Reads and Coherent under Router prove what holds of every endpoint.
--   Conf, Boot: internal/conf/config.go, and what Build of internal/boot/app.go chooses and passes on.
--   Tests: the theorems at concrete values.
--
-- Loops are structural recursion on the lists they run over, so no fuel is needed. Times and
-- durations are natural numbers of nanoseconds, and JSON texts are kept as the values they encode.
-- A service runs alone between two calls of the store: interleavings of services are covered where
-- a theorem speaks of any store, such as the ones on `transition`.
--
-- Not modelled: gin and its matching of paths, JSON texts, the sending of HTTP requests, Redis, and the
-- programs in cmd, which start the server and the loops of the workers; AutoMigrate and Open of the
-- persistence package; the clock of the machine. A checkout request whose pay_method is none of the
-- three that the domain names is left out, since a PayMethod has no fourth value.
pub mod Prelude
pub mod Domain
pub mod Port
pub mod Memory
pub mod Infra
pub mod Iface
pub mod Application
pub mod Conf
pub mod Boot
pub mod Tests
