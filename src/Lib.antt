-- ===== src/Lib.antt =====
-- Marzban, the users' side of the panel: the rows of users and what the handlers, the scheduled
-- jobs and the access checks do with them.
--
-- How the program is put together. The service layer (app/services) and the jobs (app/jobs) change
-- rows of the database through app/db/crud, tell the running cores through app/xray/operations.py,
-- and report through app/utils/report.py, which appends to the queue of app/utils/notification.py
-- and writes reminders; app/jobs/send_notifications.py empties the queue to the webhooks. The
-- tokens of admins and of subscriptions are checked by app/models/admin.py and
-- app/dependencies.py. The enabled inbounds, of which each user has a selection, come from
-- app/utils/xray_config_registry.py.
--
-- Which file models what:
--   Common        tests on numbers, list operations and integers over the native numbers, and the
--                 lemmas that the other files share
--   Settings      RuntimeSettings of app/models/settings.py, as far as it is read
--   User          the tables of app/db/models/users.py and the enumerations of app/models/user.py;
--                 User/Usage the computed columns, and app/utils/helpers.py
--   World         what is changed beside the rows of users: the table of reminders, the table of
--                 per-node usages, the queue, and the list of the calls to the core; faults
--   Table         relations between two tables, row by row
--   Reminder      app/db/crud/notifications.py; Reminder/Unique how many there are
--   Registry      app/utils/xray_config_registry.py; Registry/Selection what is normal
--   Report        app/utils/report.py with notify of app/utils/notification.py; Report/Reached the
--                 reports of thresholds
--   Operations    app/xray/operations.py: Calls what a call does to a core, Loops which calls are
--                 made, Accounts the accounts of a user after them, Listed a core whose
--                 accounts are a list
--   Users         app/db/crud/users.py: Reset the resets and the small setters, Proxies and Limits
--                 the parts of update_user, Update the whole of it and revoke_user_sub, Bulk the
--                 operations on the table
--   Admins        app/db/crud/admins.py, the token checks of app/models/admin.py, and the handlers
--                 of app/services/admin_service.py that guard sudoers
--   Access        app/dependencies.py, and the time that app/utils/jwt.py writes in a token
--   Subscription  the tokens of subscriptions in app/utils/jwt.py, with Python's base 64 and decimal
--                 numbers in Base64 and Decimal
--   Services      app/services/user_service.py: Users the handlers for one user, Bulk the deletions
--                 and the handlers for many, with app/jobs/remove_expired_users.py
--   Jobs          app/jobs: Loop the loop over a query, Review review_users.py, ResetUsage
--                 reset_user_data_usage.py, Usages the users' part and NodeUsages the nodes' part
--                 of record_usages.py, Webhooks send_notifications.py
--   Positions     the rows with a position of app/db/crud/routing.py and proxy_hosts.py, over an
--                 interface that both fill: their order, and the moves by a list of ids
--   Attached      the ids of the nodes that a rule, an inbound or an outbound is for
--   Json          the values that configurations are made of
--   Routing       app/models/routing.py and the routing rules of app/db/crud/routing.py; Template the
--                 rules that the template of a node writes
--   Configs       app/db/crud/proxy_inbounds.py and proxy_outbounds.py; Sync the inbounds and outbounds
--                 of sync_readonly_node_config in routing.py, Users the proxies of the users
--   Hosts         app/db/crud/proxy_hosts.py
--   Templates     app/db/crud/templates.py, app/models/user_template.py and the handlers of
--                 app/services/user_template_service.py
--   XrayConfig    include_db_users of app/xray/config.py
--   Nodes         app/db/crud/nodes.py; Connections connect_node and restart_node of
--                 app/xray/operations.py as steps of threads, System the handlers of
--                 app/services/node_service.py that they interleave with, and get_remote_node of
--                 app/utils/node_geo_resources.py
--   Tests         concrete rows and requests
--
-- How the code is read. A session with its commits is a state that is passed on; a handler or a
-- round of a loop returns the row, the rest of the state, and what it raised. What was committed
-- before an exception stays in the state that is returned; update_user commits once, at its end,
-- and an exception in it returns no state (of the deletions of reminders that it commits on the
-- way nothing is said then). A query that a loop runs over is read once, before the loop, as
-- query.all() does. Jobs and handlers are taken one at a time.
--
-- Numbers. A datetime is a number of microseconds since the epoch, and the server's local time is
-- UTC, as the code itself takes it where it mixes utcnow() and fromtimestamp(). One run reads the
-- clock once, but for the loop over the queue, which reads it for each notification. The columns
-- `expire` and `used_traffic` and the durations are not negative; the limit of a user may be, as
-- a reset by the next plan can compute such a limit, and is an integer. A test on the percentage
-- used is multiplied out, so no rounding of a float is modelled. Python's integers do not wrap,
-- and the BigInteger of a column is not bounded here. A time that datetime cannot hold is a ValueError
-- where the code makes a date of it: in the days left of an expiry and in the links of a response; an
-- OverflowError is not told apart from it. In other dates the times are taken to be in the calendar.
--
-- Parameters. The enabled inbounds and the tags of the inbounds' table are arguments. The settings
-- of a proxy are a text that the modelled code passes on; what settings.revoke() draws, the hash of
-- a password, the answer of a webhook and what a node charges for a value (an int of a product with
-- a float) are functions that are given. Whether jdatetime has a date, and whether the texts of the
-- hosts make the links of some proxies without an error, are given with the clock. The accounts of
-- a running core are an interface: after a call that adds an account it is there, after one that
-- removes it it is not, and a call changes nothing at another node or tag. The NOCASE collation of
-- names is not modelled: a name is found by its exact text. A token's secret is the secret key,
-- sha256, of which the length of a digest is used, and what PyJWT reads from a token of the older
-- format. int() of a token's time reads digits, signs, blanks and underscores of ASCII. The text of
-- a ValueError that a template's handler answers is left empty.
--
-- Fuel. The only loop that is not over a list that stands still is the one over the queue. It is
-- run for a number of rounds, and one round more than the queue is long is enough where all of
-- it is due.
--
-- Threads. The threads that connect a node are a list of tasks, of which any may take its next step;
-- a step is the code between two points at which another thread may change what it reads. The node's
-- answers are heard anew at each step, and a session may be lost at any time.
--
-- Positions are natural numbers: the request models of hosts do not forbid a negative one, which
-- is left out here. JSON numbers have no fraction. The order in which a query without ORDER BY
-- answers is that of the table.
--
-- Not modelled: the messages to Telegram and Discord, which have no effect on the state; the
-- routers, which only name the handlers; the gRPC clients and node processes; how XRayConfig resolves
-- and validates a configuration; the subscription formats; the bots, the command line, the dashboard,
-- backups, certificates and geo resources; balancers.
pub mod Common
pub mod Settings
pub mod User
pub mod World
pub mod Json
pub mod Positions
pub mod Attached
pub mod Table
pub mod Reminder
pub mod Registry
pub mod Report
pub mod Configs
pub mod Hosts
pub mod Routing
pub mod Operations
pub mod Users
pub mod Admins
pub mod Access
pub mod Jobs
pub mod Services
pub mod Subscription
pub mod Templates
pub mod XrayConfig
pub mod Nodes
pub mod Tests
