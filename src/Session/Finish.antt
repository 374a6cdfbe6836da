-- ===== src/Session/Finish.antt =====
-- internal/handshake/cbc.go: `expectServerFinished`.
use tlsscan.Base.{ℕ, zero, suc, Bool, true, false, ltb, ◌==◌, if◌then◌else◌}
use tlsscan.Wire.Headers.{
  record_alert, record_application_data, record_change_cipher_spec, record_handshake,
}
use tlsscan.Net.{Io, ◌>>=◌, pure, read_full}
use tlsscan.Net.Record.{read_record_header}

-- What the loop returns: whether the Finished was accepted, and how far `serverSeq` has moved.
pub data Outcome : Type 0 where
  rejected accepted_finished accepted_data : Outcome

-- One record of the type `t` after `saw_ccs`: an outcome, or the flag for the next round.
pub data Round : Type 0 where
  stop : Outcome → Round
  go_on : Bool → Round

unfoldable pub round : ℕ → Bool → Round
round t saw_ccs =
    if t == record_alert
    then stop rejected
    else if t == record_change_cipher_spec
    then go_on true
    else if t == record_handshake
    then (if saw_ccs then stop accepted_finished else go_on saw_ccs)
    else if t == record_application_data
    then (if saw_ccs then stop accepted_data else go_on saw_ccs)
    else go_on saw_ccs

abbrev pub continue : Round → (Bool → Io Outcome) → Io Outcome
continue (stop o) next = pure o
continue (go_on saw_ccs) next = next saw_ccs

unfoldable pub finished_loop : ℕ → Bool → Io Outcome
finished_loop zero saw_ccs = pure rejected
finished_loop (suc rounds) saw_ccs = read_record_header >>= λ h.
    if ltb 65536 h.2
    then pure rejected
    else (read_full h.2 >>= λ body. continue (round h.0 saw_ccs) (finished_loop rounds))

unfoldable pub expect_server_finished : Io Outcome
expect_server_finished = finished_loop 6 false
