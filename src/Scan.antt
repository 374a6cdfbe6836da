-- ===== src/Scan.antt =====
-- pkg/tlsscan: the guard of the target (guard.go), the handshakes, the certificate and the scan
-- (scanner.go), the enumeration of cipher suites (ciphers.go), and the vulnerabilities (vulns.go).
pub mod Inferred
pub mod Fallback
pub mod Ciphers
pub mod Order
pub mod Address
pub mod Ranges
pub mod Guard
pub mod Internal
pub mod Permitted
pub mod Handshake
pub mod Certificate
pub mod Vulns
pub mod Run
pub mod Graded
pub mod Excellent
pub mod Wired
pub mod Critical
pub mod Oracles
pub mod Reported
