-- ===== src/Models.antt =====
-- The database rows, one record for each model class: apps/billing/models.py,
-- apps/payments/models.py, apps/revenue/models.py, apps/registry/models.py,
-- apps/enforcement/models.py, apps/audit/models.py, apps/accounts/models.py,
-- apps/settlements/models.py, apps/reconciliation/models.py. A foreign key is the id of its row.
pub mod Ref
pub mod Billing
pub mod Payments
pub mod Revenue
pub mod Registry
pub mod Enforcement
pub mod Audit
pub mod Accounts
pub mod Settlements
pub mod Reconciliation
pub mod Fieldops
pub mod Tenancy
