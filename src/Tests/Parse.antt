-- ===== src/Tests/Parse.antt =====
-- The parsers on concrete messages.
use tlsscan.Base.{ℕ, true, [], ◌∷◌, Option, none, some, replicate, ◌≡◌, refl, arith}
use tlsscan.Wire.{Bytes}
use tlsscan.Parse.{
  server_hello_has_extension, parse_server_hello_suite, parse_ecdhe_server_key_exchange,
  parse_leaf_rsa_key,
}
use tlsscan.Parse.Safe.{Returns, parsers_Return}
use tlsscan.Parse.RoundTrip.{ServerHello, IsFitting, server_hello, has_extension-server_hello}

-- A ServerHello with a session id and `renegotiation_info`.
abbrev pub hello : ServerHello
hello = record {
  version = 0x0303;
  random = replicate 32 7;
  session_id = 1 ∷ 2 ∷ [];
  suite = 0xc013;
  compression = 0;
  extensions =
      record { kind = 0x000b; body = 1 ∷ 0 ∷ [] } ∷ record { kind = 0xff01; body = 0 ∷ [] } ∷ [];
}

pub hello-IsFitting : IsFitting hello
hello-IsFitting = record {
  random_32 = refl;
  session_fits = omega arith;
  suite_fits = omega arith;
  each_fit = (omega arith, omega arith, (omega arith, omega arith, tt));
  all_fit = omega arith;
}

has_extension-server_hello_example :
    server_hello_has_extension (server_hello hello) 0xff01 ≡ some true
has_extension-server_hello_example = has_extension-server_hello hello hello-IsFitting 0xff01

-- Extensions whose length runs past the message.
abbrev cut_short : Bytes
cut_short = 0xff ∷ 0x01 ∷ 0xff ∷ 0xff ∷ 0x00 ∷ []

abbrev no_key : Bytes → Option ℕ
no_key der = none

parsers_Return_example :
    Returns (server_hello_has_extension cut_short 0xff01)
    × Returns (parse_server_hello_suite cut_short)
    × Returns (parse_ecdhe_server_key_exchange cut_short)
    × Returns (parse_leaf_rsa_key no_key cut_short)
parsers_Return_example = parsers_Return no_key cut_short 0xff01
