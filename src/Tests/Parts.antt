-- ===== src/Tests/Parts.antt =====
-- The command line, owned resources and the logger, at concrete values.
use cpp_remote_screen_captur.Base.{ℕ, ◌≤◌, ◌≡◌, refl, List, [], ◌∷◌, ◌+◌, arith, Bool, true, some}
use cpp_remote_screen_captur.Base.Bytes.{codes}
use cpp_remote_screen_captur.InputParser.Numbers.{
  parse_num, stoi, read_digits, read_sign, skip_spaces,
}
use cpp_remote_screen_captur.InputParser.Options.{
  InputParser, k_client, new_parser, same_text, enabled, handle_option, enable, split_colon,
  missing,
}
use cpp_remote_screen_captur.InputParser.Parse.{Opt, parse, parse_options, parse_option}
use cpp_remote_screen_captur.InputParser.Bounds.{InPort}
use cpp_remote_screen_captur.InputParser.ClientOptions.{parse_client}
use cpp_remote_screen_captur.UniqueResource.{Store, Op, adopt, move, drop_at, empty, run}
use cpp_remote_screen_captur.UniqueResource.Ownership.{tally, acquired, tally-run}

-- The only address that is known here.
abbrev known : List ℕ → Bool
known arg = same_text arg (codes "10.0.0.1")

abbrev options : List Opt
options =
    record { option = codes "--period"; option_index = 1; optarg = some (codes "30") }
    ∷ record { option = codes "--srv"; option_index = 0; optarg = some (codes "10.0.0.1:5000") }
    ∷ []

abbrev client_parser : InputParser
client_parser = record (new_parser k_client) {
  host = codes "10.0.0.1";
  port = 5000;
  period = 30;
  option_enabled_ht = (codes "--srv", true) ∷ (codes "--period", true) ∷ [];
}

parse_client_example :
    InPort client_parser.port × (known client_parser.host ≡ true) × (client_parser.period ≤ 86400)
unfolding parse_options parse_option enabled new_parser same_text handle_option parse_num stoi
    read_digits read_sign skip_spaces enable split_colon missing
parse_client_example =
    parse_client known options {q = client_parser}
      (
        ((λ e. unfold same_text in cc), (λ e. refl)),
        (((λ e. refl), (λ e. unfold same_text in cc)), tt),
      )
      (unfold parse in refl)

abbrev two_objects : Store
two_objects = empty ∷ empty ∷ []

abbrev program : List Op
program = adopt 0 7 ∷ move 1 0 ∷ move 1 1 ∷ drop_at 0 ∷ drop_at 1 ∷ []

tally-run_example : tally 7 (run program two_objects) ≡ tally 7 two_objects + acquired 7 program
tally-run_example = tally-run 7 program two_objects (
  omega arith,
  ((omega arith, omega arith), ((omega arith, omega arith), (omega arith, (omega arith, tt)))),
)
