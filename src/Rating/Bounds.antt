-- ===== src/Rating/Bounds.antt =====
-- pkg/tlsscan/rating.go: bounds of the scores.
use tlsscan.Base.{◌+◌, ◌≤◌, Bool, true, false, arith}
use tlsscan.Rating.Types.{Protocols, Certificate, CipherSummary}
use tlsscan.Rating.Score.{protocol_score, key_exchange_score, cipher_score, breakdown}

protocol_score-le : (p : Protocols) → protocol_score p ≤ 100
unfolding protocol_score
protocol_score-le p = ground arith

pub key_exchange_score-le : (c : Certificate) (fs : Bool) → key_exchange_score c fs ≤ 100
unfolding key_exchange_score
key_exchange_score-le c fs = ground arith

pub cipher_score-le : (c : CipherSummary) → cipher_score c ≤ 100
unfolding cipher_score
cipher_score-le c = ground arith

-- Each of the four scores of the breakdown, the weighted one included, is at most 100.
pub breakdown_bounds :
    (p : Protocols) (c : Certificate) (cs : CipherSummary) (fs : Bool)
    → ((breakdown p c cs fs).protocol_score ≤ 100)
      × ((breakdown p c cs fs).key_exchange_score ≤ 100)
      × ((breakdown p c cs fs).cipher_score ≤ 100)
      × ((breakdown p c cs fs).numeric ≤ 100)
unfolding breakdown
breakdown_bounds p c cs fs =
    let hp = protocol_score-le p in
    let hk = key_exchange_score-le c fs in let hc = cipher_score-le cs in (hp, hk, hc, omega arith)

-- Losing forward secrecy never raises the key exchange score, and costs at most 20.
pub key_exchange_score_fs :
    (c : Certificate)
    → (key_exchange_score c false ≤ key_exchange_score c true)
      × (key_exchange_score c true ≤ key_exchange_score c false + 20)
unfolding key_exchange_score
key_exchange_score_fs c = ground arith
