-- ===== src/Agent.antt =====
-- apps/network-agent: the program on the gateway machine, which keeps the firewall and the traffic
-- shaping in step with what the API says. Shell has the tests of shell.ts on what reaches a
-- command line, Config the configuration, Shaping tc.ts, Ruleset nft.ts, Health host-health.ts,
-- DnsLog dns-log.ts and app-catalog.ts, Usage usage.ts, Delivery alerts.ts, Leases lease-watcher.ts,
-- Dnsmasq dnsmasq.ts. What a command does to the machine is outside; whether it fails is a
-- parameter.
pub mod Shell
pub mod Config
pub mod Segments
pub mod Networks
pub mod Separators
pub mod Written
pub mod Shaping
pub mod Minors
pub mod Classes
pub mod Events
pub mod Removals
pub mod Overlaps
pub mod Ruleset
pub mod Garden
pub mod Health
pub mod Outages
pub mod Usage
pub mod Shares
pub mod Delivery
pub mod Leases
pub mod Dnsmasq
pub mod DnsLog
pub mod Lookups
pub mod Admission
pub mod Entitled
mod Tests
mod UsageTests
mod SyncTests
mod NetworkTests
mod DeliveryTests
mod LeasesTests
