-- ===== src/InputParser/Options.antt =====
-- input_parser.cc: the parser's state, its options and `Parse`.
use cpp_remote_screen_captur.Base.{
  ℕ, zero, suc, List, [], ◌∷◌, Bool, true, false, ◌||◌, Option, none, some, ltb, ◌==◌,
  if◌then◌else◌,
}
use cpp_remote_screen_captur.Base.Bytes.{codes}
use cpp_remote_screen_captur.Base.Int.{ℤ, pos, negsuc}
use cpp_remote_screen_captur.InputParser.Numbers.{
  Outcome, value, thrown, ◌>>=◌, parse_num, invalid_host, invalid_port, invalid_period, invalid_srv,
  null_text,
}

pub data ProgramType : Type 0 where
  k_server k_client : ProgramType

-- `option_enabled_ht` is the table of the options and of whether each has been met. The numbers
-- and the host are not initialised by the constructor: here they start at 0 and empty.
pub record InputParser : Type 0 where
  pub prog_type : ProgramType
  pub host : List ℕ
  pub port : ℕ
  pub period : ℕ
  pub option_enabled_ht : List (List ℕ × Bool)

unfoldable pub init_options : ProgramType → List (List ℕ × Bool)
init_options k_server = (codes "--port", false) ∷ []
init_options k_client = (codes "--srv", false) ∷ (codes "--period", false) ∷ []

-- The constructor, with `InitServerStructs` and `InitClientStructs`.
unfoldable pub new_parser : ProgramType → InputParser
unfolding init_options
new_parser type = record {
  prog_type = type;
  host = [];
  port = 0;
  period = 0;
  option_enabled_ht = init_options type;
}

unfoldable pub same_text : List ℕ → List ℕ → Bool
same_text [] [] = true
same_text (a ∷ s) (b ∷ t) = if a == b then same_text s t else false
same_text _ _ = false

-- `find(":")`: what stands before and behind the first colon.
unfoldable pub split_colon : List ℕ → Option (List ℕ × List ℕ)
split_colon [] = none
split_colon (c ∷ cs) =
    let rest = split_colon cs in
    if c == b':'
    then some ([], cs)
    else elim rest [ none ↦ none | some (front, back) ↦ some (c ∷ front, back) ]

-- `inet_pton` is the system's: whether it answers 1 for the text of an address.
module _ (inet_pton : List ℕ → Bool) where
  unfoldable pub parse_host : List ℕ → InputParser → Outcome InputParser
  parse_host arg p = if inet_pton arg then value (record p { host = arg }) else thrown invalid_host

  unfoldable pub set_port : ℤ → InputParser → Outcome InputParser
  set_port (negsuc n) p = thrown invalid_port
  set_port (pos n) p =
      if n == 0 || ltb 65535 n then thrown invalid_port else value (record p { port = n })

  unfoldable pub parse_port : List ℕ → InputParser → Outcome InputParser
  unfolding set_port
  parse_port arg p = parse_num arg >>= λ port. set_port port p

  unfoldable pub set_period : ℤ → InputParser → Outcome InputParser
  set_period (negsuc n) p = thrown invalid_period
  set_period (pos n) p =
      if ltb 86400 n then thrown invalid_period else value (record p { period = n })

  unfoldable pub parse_period : List ℕ → InputParser → Outcome InputParser
  unfolding set_period
  parse_period arg p = parse_num arg >>= λ period. set_period period p

  unfoldable pub parse_parts : List ℕ → Option (List ℕ × List ℕ) → InputParser → Outcome InputParser
  unfolding parse_host parse_port
  parse_parts arg none p = thrown (invalid_srv arg)
  parse_parts arg (some (host_str, port_str)) p = parse_host host_str p >>= parse_port port_str

  unfoldable pub parse_srv : List ℕ → InputParser → Outcome InputParser
  unfolding parse_parts
  parse_srv arg p = parse_parts arg (split_colon arg) p

  -- `optarg` as a `std::string`: a null pointer throws.
  unfoldable pub with_text :
      Option (List ℕ)
      → (List ℕ → InputParser → Outcome InputParser)
      → InputParser
      → Outcome InputParser
  with_text none f p = thrown null_text
  with_text (some arg) f p = f arg p

  unfoldable pub handle_server_option : ℕ → Option (List ℕ) → InputParser → Outcome InputParser
  unfolding with_text parse_port
  handle_server_option zero optarg p = with_text optarg parse_port p
  handle_server_option (suc i) optarg p = value p

  unfoldable pub handle_client_option : ℕ → Option (List ℕ) → InputParser → Outcome InputParser
  unfolding with_text parse_srv parse_period
  handle_client_option zero optarg p = with_text optarg parse_srv p
  handle_client_option (suc zero) optarg p = with_text optarg parse_period p
  handle_client_option (suc (suc i)) optarg p = value p

  unfoldable pub handle_option :
      ProgramType → ℕ → Option (List ℕ) → InputParser → Outcome InputParser
  unfolding handle_server_option handle_client_option
  handle_option k_server i optarg p = handle_server_option i optarg p
  handle_option k_client i optarg p = handle_client_option i optarg p

unfoldable pub enabled : List ℕ → List (List ℕ × Bool) → Option Bool
enabled name [] = none
enabled name ((o, b) ∷ t) = if same_text o name then some b else enabled name t

unfoldable pub enable : List ℕ → List (List ℕ × Bool) → List (List ℕ × Bool)
enable name [] = []
enable name ((o, b) ∷ t) = if same_text o name then (o, true) ∷ t else (o, b) ∷ enable name t

-- The options that are still missing.
unfoldable pub missing : List (List ℕ × Bool) → List (List ℕ)
missing [] = []
missing ((o, true) ∷ t) = missing t
missing ((o, false) ∷ t) = o ∷ missing t
