-- ===== src/Lib.antt =====
-- NetCam, a self-hosted WiFi hotspot with vouchers, mobile-money payments and a captive portal.
--
-- The program is a set of TypeScript services. The API (apps/api) keeps vouchers, payments,
-- withdrawals and sessions in a database; the network agent (apps/network-agent) runs on the
-- gateway machine and keeps the firewall and the traffic shaping in step with what the API says.
-- Each component here is a module named for it, with child modules for what is proved of it.
--
-- How the parts meet: a customer pays (Payments), the gateway's answer to a deposit or a status
-- check comes through its client (Gateway), a payment that succeeded issues a voucher, a device
-- redeems the voucher (Vouchers), and the network agent admits the device (Agent). The owner takes
-- the money out again (Withdrawals, with Fees), through the same gateway; Earnings and Ledger report
-- what came in and went out. A customer who lost a voucher gets it back with a code (Portal), which
-- is sent like the alerts of Alerts through Messages. Packages says what is sold.
--
--   Prelude      shared types, list and text functions, service calls that may throw
--   Database     the Prisma client: an interface, what its calls are documented to do, and the fact
--                that this determines it, by which proofs compute with lists
--   Phone        normalizePhone of apps/api/src/customers/customers.service.ts, and the tests on
--                phone numbers of the payments and withdrawals services
--   Gateway      apps/api/src/payments/ssentezo.gateway.ts: the results made of an answer, and the
--                retries (initiateDeposit, initiateWithdrawal, getStatus, the constructor's loop)
--   Fees         apps/api/src/finance/withdrawal-fees.ts
--   Withdrawals  apps/api/src/finance/withdrawals.service.ts: the state is a `Bank`, one function
--                for each method; Service has send, settle and poll, Requests the admins' calls
--   Payments     apps/api/src/payments/payments.service.ts: the state is a `Shop`; initiate here,
--                reconcile, pollPending and issueForPayment in Reconcile
--   Vouchers     apps/api/src/vouchers/vouchers.service.ts on a `Hall`: redeem in Redeem, the logins
--                without a code and the batches in Login, suspend and setDeviceBlocked in Switches,
--                with the sweep of apps/api/src/sessions/sessions.service.ts
--   Agent        apps/network-agent/src: shell.ts, config.ts, tc.ts on a `Shaper`, its calls that
--                overlap in Events, nft.ts, admission.ts and state.ts on a `Gate`, host-health.ts on
--                a `Health`, dns-log.ts and app-catalog.ts on a `DnsLog`, usage.ts in Usage, alerts.ts
--                on a `Sender` in Delivery, lease-watcher.ts on a `Watcher` in Leases, dnsmasq.ts in
--                Dnsmasq
--   Earnings     apps/api/src/payments/earnings.service.ts: sales, todayUgx, and summary in Summary
--   Ledger       apps/api/src/finance/ledger.service.ts on `Books`; its summary, with the sales of
--                Earnings and the rows of Withdrawals, in Report
--   Packages     apps/api/src/packages/packages.service.ts on a `Store`
--   Portal       the recovery of a voucher in apps/api/src/portal/portal.service.ts
--   Auth         apps/api/src/auth/auth.service.ts and guards/roles.guard.ts, and
--                apps/api/src/admin-users/admin-users.service.ts, on `Accounts`
--   Routers      apps/api/src/routers/routers.service.ts, on the list of routers
--   Messages     apps/api/src/whatsapp/messenger.service.ts
--   Alerts       apps/api/src/alerts/alerts.service.ts on a `Desk`, and the checks of
--                alerts-monitor.service.ts in Monitor
--
-- A service's state is a record of tables; a call takes it and returns a result with the new state,
-- where what was written before a throw stays written, except in a transaction. Ids are numbers,
-- since they are only compared, and times milliseconds; the ids of payments are text, as the gateway
-- reports them back. The clock, new ids, the password test, the gateway's answers and the presence of
-- a device are fields of an `Outside` record, a new one for each call, so they are arbitrary.
--
-- Bounds: the loop of feeTiers runs on fuel, the maximum and 3 more, since each band is at least one
-- wide and one row is at zero; the loop of retries runs on the number of attempts that are left.
-- The loop that draws voucher codes runs on the list of what is drawn, and fails when all are taken.
--
-- The calls that a service makes on another are recorded in the caller's state (a login after a
-- payment, a message, an alert), or are the other's functions (the sales in the ledger).
--
-- A call is one step. Where calls that overlap matter, the steps are smaller: a removal of the traffic
-- shaping is two events (Agent.Events), a payment's reconcile may hold a row that was read at any
-- time (Payments.Books), a conditional update is one step of its own. The floating-point numbers of
-- usage.ts are a record of operations, and what is exact of them a second one (Agent.Shares).
--
-- Not modelled: the web pages and the portal's pages, controllers and modules (glue), what a shell
-- command does to the machine, the messaging clients, most reports that only read; and of the API
-- so far settings and traffic reports, of the agent the connections that the usage is
-- counted from, and its VLANs, ARP lookups and HTTP server.
pub mod Prelude
pub mod Database
pub mod Phone
pub mod Gateway
pub mod Fees
pub mod Withdrawals
pub mod Payments
pub mod Vouchers
pub mod Agent
pub mod Earnings
pub mod Ledger
pub mod Packages
pub mod Portal
pub mod Auth
pub mod Routers
pub mod Messages
pub mod Alerts
