-- ===== src/Lib.antt =====
-- Verification of tlsscan, a scanner that grades the TLS configuration of a server. A scan collects
-- protocols, certificate and ciphers, probes for vulnerabilities at the record and handshake layer,
-- and rates the result. The probes build messages by hand, send them over a connection, and judge
-- the first bytes of the answer.
--
-- The parts, and the files that model them:
-- Rating is pkg/tlsscan/rating.go on the data of pkg/tlsscan/types.go. `rate` is the fold of the
-- functions `cap_*` and `upgrade`, one for each step of the code, over the grade and the caps so
-- far; `breakdown` is the numeric part.
-- Wire is the framing of records and handshake messages (`wrapTLS12Record`, `wrapSSL3Record`,
-- `wrapRecord`, `wrapHandshake`), and in Wire/Hello every message that a probe sends in the clear.
-- Wire/Grammar is a reader of ClientHello messages after the RFCs, which Wire/Offers applies to them.
-- Net is a connection to any peer, given by the packets that it sends after each write, by the
-- writes that it takes and by the error of a read with nothing waiting. `readFull` is `read_full`,
-- `readRecordHeader` is `read_record_header`. Net/Stream relates a reader of packets to a parser
-- of the stream of bytes.
-- Probe is internal/handshake/probes.go and internal/handshake/legacy.go, the probes that judge one
-- reply: FREAK, Logjam, fallback SCSV, SSLv3 and SSLv2.
-- Reaction is how a server reacted to a crafted record: `cbcReaction` of internal/handshake/cbc.go
-- and `robotSignature` of internal/handshake/robot.go. Reaction/Stream has it as a function of the
-- bytes that arrive.
-- Cbc is the session, the PRF and the crafted records of internal/handshake/cbc.go, and the decision
-- of internal/handshake/cbc_oracle.go. Cbc/Padding is the receiver of RFC 5246, which strips the
-- padding and checks the MAC: the stimuli are specified by what it makes of them.
-- Session is the handshake of internal/handshake/cbc.go: `hsReader` is Session/Reader, whose state is
-- the buffer; `establishCBCSession` is Session/Flight up to the ServerHelloDone, Session/Keys for the
-- secrets and Session/Establish for the whole, cut into one function for what follows each call;
-- `expectServerFinished` is Session/Finish. `cbcExchange` of internal/handshake/cbc_oracle.go and its
-- probe over a network stand in Session/Establish too. Session/Pending says that messages wait on a
-- connection, Session/Server what a server does that follows the handshake, Session/Yields what a
-- step has established when it returns. Session/Receives is a network whose servers decrypt the
-- crafted records, and Session/Blind what the whole probe says of it.
-- Robot is the PKCS#1 v1.5 vectors, the messages and the decision of internal/handshake/robot.go;
-- Robot/Flight is `readServerHelloAndCert`, Robot/Exchange is `robotServerRSAKey`, `robotExchange` and
-- the probe over a network. Robot/Server is a server that shows a key, Robot/Oracle one that decrypts
-- the ClientKeyExchange, and what the whole probe says of it.
-- Renegotiation is `readServerHelloMessage` and `ProbeInsecureRenegotiation` of
-- internal/handshake/probes.go.
-- Heartbleed is the probe of internal/vulns/heartbleed.go, from the dial to the verdict.
-- Parse is the parsers of the messages of a server, `serverHelloHasExtension`,
-- `parseServerHelloSuite`, `parseECDHEServerKeyExchange` and `parseLeafRSAKey`. A slice or an index
-- out of range is `none`, in Robot too.
-- Scan is pkg/tlsscan: Scan/Guard and Scan/Address are guard.go; Scan/Handshake, Scan/Certificate and
-- Scan/Run are pkg/tlsscan/scanner.go, with `Scan` as `scan`; Scan/Ciphers is
-- pkg/tlsscan/ciphers.go, in an order that is a parameter, as Go leaves it open; Scan/Inferred,
-- Scan/Fallback and Scan/Vulns are pkg/tlsscan/vulns.go, which composes all the probes. Scan/Oracles
-- follows the oracle probes through a whole scan, Scan/Reported the renegotiation and the Heartbleed
-- probe, both over Scan/Critical, a scan that finds a critical flaw; Scan/Wired says which server and
-- which offer a verdict of `probeVulnerabilities` rests on.
-- Service is `handleScan` of cmd/headerforge-tls/main.go, and the exit of cmd/tlsscan/main.go.
-- Service/Print is `printText` there, over what package fmt writes for a verb (`Format`), and
-- Service/Lines reads its text line by line.
-- Base has what they share, Tests the examples and the runs at concrete inputs.
--
-- Bytes are natural numbers, and the code's conversions to bytes and to 16 bits are remainders. The
-- sequence number of a session wraps at 64 bits. Texts are lists of bytes.
--
-- Fuel: `read_full` runs on two rounds more than there are packets, since each round uses up a packet
-- or fills the buffer; `p_hash_sha256` on as many rounds as bytes are asked for, since each adds a
-- digest; the extension loop on the length of the message, since each round moves on by 4 at least;
-- `message_loop` on 65538 rounds, since each adds a byte and the loop is left above 65536 bytes; `next`
-- of `hsReader` on 262146, as it is left above 262144 bytes; the loop up to the ServerHelloDone on one
-- round more than there are bytes, since a message takes four; `drain` on the length of the buffer.
--
-- Parameters: HMAC, SHA-256, AES-CBC, crypto/ecdh, RSA encryption, math/big and the random bytes of the
-- Go library, what crypto/x509 makes of a certificate, a dial and handshake of crypto/tls as a function
-- of its configuration (no two of a scan have the same one; those of the enumeration differ in the
-- suite), name resolution, the clock, and who answers each connection. Of the digests only their length
-- and that they are bytes is assumed, of math/big that Exp reduces and that Bytes is short, of AES and
-- RSA that decryption inverts encryption, of the random bytes that they fill their buffer. The decisions
-- of the two oracle probes are stated for any way to establish a session and to run an exchange.
--
-- Not modelled: timeouts as durations (an expired deadline is an error of the peer), the duration of a
-- scan, negative ports, panics of a probe as the end of the program, and in cmd the flags, JSON and the
-- HTTP server.
mod Base
pub mod Rating
pub mod Wire
pub mod Net
pub mod Probe
pub mod Reaction
pub mod Cbc
pub mod Session
pub mod Robot
pub mod Renegotiation
pub mod Heartbleed
pub mod Parse
pub mod Scan
pub mod Service
mod Tests
