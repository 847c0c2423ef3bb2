-- ===== src/Lib.antt =====
-- The backend of FluentHub, a system for language schools, written in Go under backend/. Its services take
-- requests, check them, and write a PostgreSQL database by SQL statements, most of them in transactions.
-- A service is modelled as functions on a record of tables, each a list of rows; a statement is a test, a
-- search or an update of such a list. An operation is an `Action`: from the state before to a result, or an
-- error, and the state after. Any call of the database may fail: a function `Faults` says which, by the
-- number of the call in the order of the source, and a theorem over every such function holds for every
-- pattern of failures, of constraints of the tables as well. The time is a number of nanoseconds since Go's
-- zero time, and the identifiers that the program generates are arguments. Concurrent transactions are not
-- modelled: an operation runs alone, and orders of operations are sequences of them.
--
-- Prelude: tests, lists, tables and their laws, actions and transactions, Go's int and int64 with their
--   wrap-around, and texts.
-- Billing (backend/internal/billing): Billing.Status is mapAsaasStatus and paymentStatus, with the order of
--   the statuses in Order and sequences of events in Sequence; Billing.Provider is the interface
--   BillingProvider, the MockProvider in Mock, and the client of the payment service in Asaas and Cents,
--   over the HTTP exchange, the codec of JSON and the parser of URLs as parameters; Billing.Store holds the
--   tables; Billing.Service is ProcessAsaasWebhook and applyInvoiceStatus, with Create and Reconcile in its
--   children; Billing.Webhook is AsaasWebhookHandler, with the digest and the decoder as parameters. A
--   provider is a parameter of the service: what it answers is any result. The loop of Reconcile is
--   recursion on the list of invoices that it has read.
-- Assessment (backend/internal/assessment): Store holds the tables; Start is StartExercise and StartExam,
--   Answers is SaveExerciseAnswer and SaveExamAnswer, Submit is SubmitExercise and SubmitExam, Grade is
--   grade, GradeExercise and GradeExam.
-- Academic, Attendance and Exams are Calculate (backend/internal/academic), Classify
--   (backend/internal/attendance), and NewAttempt, CanSave and PublicOptions (backend/internal/exams and
--   backend/internal/exercises).
-- Notifications is the hub of backend/internal/notifications/hub.go: Subscribe with the function that it
--   returns, dispatch and Close, where an operation that panics is `none`; Notifications.Service is
--   backend/internal/notifications/service.go, where what goes to the hub is a list of events.
-- Records is Transition of backend/internal/records/service.go.
-- Auth (backend/internal/auth): passwords, session tokens and cookies over a record `Crypto` of what the
--   libraries do. Users (backend/internal/users): Store holds the tables, Sessions is Authenticate, ByToken,
--   Revoke, ChangePassword and withAccess, Accounts is Create, Disable and Reactivate. Middleware
--   (backend/internal/http/middleware) is Authenticate and Require over them, where a handler is a function
--   from the context and the state to a response and a state.
-- Support (backend/internal/support) is Assign and AddMessage.
-- Storage (backend/internal/storage): the interface ObjectStorage as a record, with what its callers rely on;
--   Storage.Envelope is encryptStream and decryptStream of secure.go over an AEAD, Storage.Secure is
--   SecureObjectStorage around any storage, Storage.Local is LocalObjectStorage on a list of files. A source is
--   the list of what its reads give. The rounds of decryptStream are recursion on fuel, the number of bytes
--   after the header and one more, of which each round uses four at least.
-- Setup (backend/internal/setup and backend/internal/permissions) is validate and Complete, over the tables of
--   Users, and the catalogue of permissions. Config (backend/internal/config) is Load.
--
-- Not modelled: the HTTP router and its coding of requests, the publication of notifications through the
-- database, backups, the scanner's protocol and the detection of file types, the listings of users and the rest
-- of the records, live classes and certificates, which have code of their own; the types without code;
-- a connection that breaks while the rows of withAccess are read; a reader of a decrypted object that is closed
-- before the end; and the frontend.
pub mod Prelude
pub mod Auth
pub mod Billing
pub mod Assessment
pub mod Academic
pub mod Attendance
pub mod Exams
pub mod Notifications
pub mod Records
pub mod Users
pub mod Middleware
pub mod Setup
pub mod Config
pub mod Storage
pub mod Support
