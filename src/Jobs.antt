-- ===== src/Jobs.antt =====
-- The scheduled jobs of app/jobs. A job is one run over the tables, with one reading of the clock;
-- what other sessions write in between is not modelled.
pub mod Loop
pub mod Review
pub mod ResetUsage
pub mod Webhooks
pub mod Usages
pub mod NodeUsages
