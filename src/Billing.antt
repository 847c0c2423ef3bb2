-- ===== src/Billing.antt =====
-- backend/internal/billing: invoices, their provider, the payment webhook and the reconciliation.
pub mod Status
mod Tests
pub mod Provider
pub mod Store
pub mod Service
pub mod Webhook
