-- ===== src/Webhook.antt =====
-- internal/webhook: the HTTP layer. `Wire` (wire.go), `Status` (errors.go), `Handler` (handler.go),
-- `Negotiation` (negotiation.go), `Body` and `Routes` (logRequestBody and NewHandler of handler.go).
pub mod Wire
pub mod Status
pub mod Handler
pub mod Answers
pub mod Negotiation
pub mod Accepting
pub mod Body
pub mod Rereading
pub mod Routes
pub mod Served
pub mod Writing
pub mod Succeeding
