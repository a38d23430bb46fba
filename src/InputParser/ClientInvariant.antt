-- ===== src/InputParser/ClientInvariant.antt =====
-- input_parser.cc: what a client's parser has made sure of, and the handlers of its two options.
use cpp_remote_screen_captur.Base.{
  ℕ, ◌≤◌, ◌≡◌, refl, List, [], ◌∷◌, Bool, true, false, Option, arith, ap, ◌∙◌,
}
use cpp_remote_screen_captur.Base.Bytes.{codes}
use cpp_remote_screen_captur.InputParser.Numbers.{value}
use cpp_remote_screen_captur.InputParser.Options.{
  k_client, InputParser, parse_period, parse_srv, handle_client_option, same_text, split_colon,
}
use cpp_remote_screen_captur.InputParser.Parse.{Opt}
use cpp_remote_screen_captur.InputParser.Bounds.{
  InPort, parse_period-bound, parse_parts-lem, with_text-eq_value,
}

-- The index is that of the option's name, as `getopt_long` sets it.
abbrev pub IsIndexed : Opt → Type 0
IsIndexed opt =
    (same_text (codes "--srv") opt.option ≡ true → opt.option_index ≡ 0)
    × (same_text (codes "--period") opt.option ≡ true → opt.option_index ≡ 1)

abbrev pub table : Bool → Bool → List (List ℕ × Bool)
table srv period = (codes "--srv", srv) ∷ (codes "--period", period) ∷ []

module _ (inet_pton : List ℕ → Bool) where
  -- What a client's parser has made sure of by the options that it has met.
  pub record ClientInv (p : InputParser) (srv period : Bool) : Type 0 where
    pub of_client : p.prog_type ≡ k_client
    pub options : p.option_enabled_ht ≡ table srv period
    pub srv_done : srv ≡ true → InPort p.port × (inet_pton p.host ≡ true)
    pub period_done : period ≡ true → p.period ≤ 86400

  pub srv_option :
      (optarg : Option (List ℕ)) (p : InputParser) {q : InputParser} (period : Bool)
      → ClientInv p false period
      → handle_client_option inet_pton 0 optarg p ≡ value q
      → (q.option_enabled_ht ≡ table false period)
        × ClientInv (record q { option_enabled_ht = table true period }) true period
  unfolding handle_client_option parse_srv
  srv_option optarg p {q} period inv e =
      let (arg, f) = with_text-eq_value inet_pton optarg (parse_srv inet_pton) p {q = q} e in
      let (r, s, t) = parse_parts-lem inet_pton arg (split_colon arg) p {q = q} f in
      (
        ap (λ (x : InputParser). x.option_enabled_ht) r ∙ inv.options,
        record {
          of_client = ap (λ (x : InputParser). x.prog_type) r ∙ inv.of_client;
          options = refl;
          srv_done = λ _. (s, t);
          period_done = λ h. ground (arith, inv.period_done h);
        },
      )

  pub period_option :
      (optarg : Option (List ℕ)) (p : InputParser) {q : InputParser} (srv : Bool)
      → ClientInv p srv false
      → handle_client_option inet_pton 1 optarg p ≡ value q
      → (q.option_enabled_ht ≡ table srv false)
        × ClientInv (record q { option_enabled_ht = table srv true }) srv true
  unfolding handle_client_option
  period_option optarg p {q} srv inv e =
      let (arg, f) = with_text-eq_value inet_pton optarg (parse_period inet_pton) p {q = q} e in
      let (r, s) = parse_period-bound inet_pton arg p {q = q} f in
      (
        ap (λ (x : InputParser). x.option_enabled_ht) r ∙ inv.options,
        record {
          of_client = ap (λ (x : InputParser). x.prog_type) r ∙ inv.of_client;
          options = refl;
          srv_done = λ h. ground (arith, inv.srv_done h);
          period_done = λ _. s;
        },
      )
