-- ===== src/InputParser/ServerOptions.antt =====
-- input_parser.cc and server/src/main.cc: a server's port on the command line, to the end of `main`.
use cpp_remote_screen_captur.Base.{
  ℕ, ◌^◌, ◌<◌, ◌≡◌, refl, ap, ◌∙◌, List, [], ◌∷◌, Bool, true, ◌||◌, some, ltb, ◌==◌, arith,
  if◌then◌else◌,
}
use cpp_remote_screen_captur.Base.Bytes.{codes}
use cpp_remote_screen_captur.Base.Int.{ℤ, pos}
use cpp_remote_screen_captur.Base.Decimal.{to_string}
use cpp_remote_screen_captur.InputParser.Numbers.{
  Outcome, value, ◌>>=◌, out_of_range, invalid_port, is_invalid_argument,
}
use cpp_remote_screen_captur.InputParser.Options.{
  InputParser, k_server, new_parser, set_port, parse_port, handle_server_option, handle_option,
  with_text, enabled, enable, missing, same_text,
}
use cpp_remote_screen_captur.InputParser.Parse.{
  Opt, parse_option, parse_options, parse, Main, runs, prints, terminates, main, handled,
  check_missing,
}
use cpp_remote_screen_captur.InputParser.Decimals.{parse_num-to_string_alone}

module _ (inet_pton : List ℕ → Bool) where
  -- The option `--port` with a text.
  abbrev pub port_option : List ℕ → Opt
  port_option text = record { option = codes "--port"; option_index = 0; optarg = some text }

  -- The parser with the port.
  abbrev pub with_port : ℕ → InputParser
  with_port n = record (new_parser k_server) {
    port = n;
    option_enabled_ht = (codes "--port", true) ∷ [];
  }

  -- What `main` makes of the result of `ParsePort`.
  abbrev ending : Outcome InputParser → Main inet_pton
  ending r = handled inet_pton (
      ((r >>= λ q.
      value (record q { option_enabled_ht = enable (codes "--port") q.option_enabled_ht }))
        >>= parse_options inet_pton [])
      >>= λ q. check_missing (missing q.option_enabled_ht) q)

  main-ending :
      (text : List ℕ)
      → main inet_pton k_server (port_option text ∷ [])
        ≡ ending (parse_port inet_pton text (new_parser k_server))
  unfolding main parse parse_options parse_option enabled same_text handle_option
      handle_server_option with_text new_parser
  main-ending text = refl

  ending-set_port :
      (n : ℕ)
      → ending (set_port inet_pton (pos n) (new_parser k_server))
        ≡ (if n == 0 || ltb 65535 n then prints invalid_port else runs (with_port n))
  unfolding set_port parse_options new_parser enable missing same_text is_invalid_argument
  ending-set_port n = ground arith

  -- A server started with `--port` and the decimal text of a number below 10^20 runs with
  -- exactly this port if it is one of 1 to 65535, prints the error if it is another below
  -- 2147483648, and is terminated by an uncaught `std::out_of_range` from there on.
  pub main-to_string :
      (n : ℕ)
      → n < 10 ^ 20
      → main inet_pton k_server (port_option (to_string n) ∷ []) ≡ (
          if ltb n (2 ^ 31)
          then (if n == 0 || ltb 65535 n then prints invalid_port else runs (with_port n))
          else terminates out_of_range)
  unfolding parse_port is_invalid_argument
  main-to_string n h =
      main-ending (to_string n)
      ∙ ap (λ (r : Outcome ℤ). ending (r >>= λ port. set_port inet_pton port (new_parser k_server)))
          (parse_num-to_string_alone n h)
      ∙ ground (arith, ending-set_port n)
