-- ===== src/Reaction/Laws.antt =====
-- The method `equal` of the reactions (cbc.go, robot.go).
use tlsscan.Base.{true, ◌≡◌, arith}
use tlsscan.Reaction.{Reaction, equal}

pub equal_refl : (a : Reaction) → equal a a ≡ true
unfolding equal
equal_refl a = ground arith

pub equal_sym : (a b : Reaction) → equal a b ≡ equal b a
unfolding equal
equal_sym a b = ground arith

pub equal_trans : (a b c : Reaction) → equal a b ≡ true → equal b c ≡ true → equal a c ≡ true
unfolding equal
equal_trans a b c h k = ground arith
