-- ===== src/Services.antt =====
-- The handlers of app/services. A handler returns the state that it leaves beside its reply; an
-- exception drops the background tasks that were queued before it.
pub mod Users
pub mod Bulk
