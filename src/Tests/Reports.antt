-- ===== src/Tests/Reports.antt =====
-- The reports of thresholds with their settings off.
use marzban.Common.{false}
use marzban.World.{Context}
use marzban.Tests.Samples.{context}

abbrev switched_off : Context
switched_off = record context {
  settings = record (context.settings) {
    notify_if_data_usage_percent_reached = false;
    notify_if_days_left_reached = false;
  };
}
