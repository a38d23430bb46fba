-- ===== src/InputParser/Parse.antt =====
-- input_parser.cc: `Parse`; client/src/main.cc and server/src/main.cc: what comes of it.
use cpp_remote_screen_captur.Base.{
  ℕ, List, [], ◌∷◌, Bool, true, false, Option, none, some, if◌then◌else◌,
}
use cpp_remote_screen_captur.InputParser.Numbers.{
  Outcome, value, thrown, ◌>>=◌, ParseError, missing_options, invalid_option, duplicate_option,
  is_invalid_argument,
}
use cpp_remote_screen_captur.InputParser.Options.{
  ProgramType, InputParser, new_parser, handle_option, enabled, enable, missing,
}

-- A call of `getopt_long`, which is the system's, other than the last one that gives -1: the
-- element of `argv` that the loop reads back, the option's index, and `optarg`, `none` for null.
pub record Opt : Type 0 where
  pub option : List ℕ
  pub option_index : ℕ
  pub optarg : Option (List ℕ)

abbrev pub check_missing : List (List ℕ) → InputParser → Outcome InputParser
check_missing [] p = value p
check_missing (o ∷ os) p = thrown (missing_options (o ∷ os))

module _ (inet_pton : List ℕ → Bool) where
  -- The body of the loop.
  abbrev pub when_found : Opt → Option Bool → InputParser → Outcome InputParser
  when_found opt none p = thrown (invalid_option opt.option)
  when_found opt (some true) p = thrown (duplicate_option opt.option)
  when_found opt (some false) p =
      handle_option inet_pton p.prog_type opt.option_index opt.optarg p >>= λ q.
      value (record q { option_enabled_ht = enable opt.option q.option_enabled_ht })

  unfoldable pub parse_option : Opt → InputParser → Outcome InputParser
  parse_option opt p = when_found opt (enabled opt.option p.option_enabled_ht) p

  unfoldable pub parse_options : List Opt → InputParser → Outcome InputParser
  parse_options [] p = value p
  parse_options (opt ∷ opts) p = parse_option opt p >>= parse_options opts

  unfoldable pub parse : List Opt → InputParser → Outcome InputParser
  parse opts p = parse_options opts p >>= λ q. check_missing (missing q.option_enabled_ht) q

  -- How `main` goes on: the program runs on what was parsed, or prints the error and returns, or
  -- ends by `std::terminate` since nothing catches what was thrown.
  pub data Main : Type 0 where
    runs : InputParser → Main
    prints terminates : ParseError → Main

  abbrev pub handled : Outcome InputParser → Main
  handled (value p) = runs p
  handled (thrown e) = if is_invalid_argument e then prints e else terminates e

  unfoldable pub main : ProgramType → List Opt → Main
  main type opts = handled (parse opts (new_parser type))
