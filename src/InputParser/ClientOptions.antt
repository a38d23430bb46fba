-- ===== src/InputParser/ClientOptions.antt =====
-- input_parser.cc: `Parse` over a client's options.
use cpp_remote_screen_captur.Base.{
  ℕ, ◌≤◌, ◌≡◌, refl, List, [], ◌∷◌, Bool, true, false, Option, none, some, All, Bool-cases, inl,
  inr, sym, ap, ◌∙◌, subst,
}
use cpp_remote_screen_captur.Base.Bytes.{codes}
use cpp_remote_screen_captur.InputParser.Numbers.{value}
use cpp_remote_screen_captur.InputParser.Options.{
  k_client, InputParser, new_parser, handle_option, handle_client_option, enabled, enable, missing,
  same_text,
}
use cpp_remote_screen_captur.InputParser.Parse.{
  Opt, parse_option, parse_options, parse, when_found, check_missing,
}
use cpp_remote_screen_captur.InputParser.Bounds.{InPort, >>=-eq-value}
use cpp_remote_screen_captur.InputParser.ClientInvariant.{
  IsIndexed, table, ClientInv, srv_option, period_option,
}

module _ (inet_pton : List ℕ → Bool) where
  -- An option that is found is handled by its index, and then marked.
  found_option :
      (opt : Opt) (p : InputParser) {q : InputParser}
      → when_found inet_pton opt (some false) p ≡ value q
      → (r : InputParser) × (handle_option inet_pton p.prog_type opt.option_index opt.optarg p
          ≡ value r)
        × (q ≡ record r { option_enabled_ht = enable opt.option r.option_enabled_ht })
  found_option opt p {q} e =
      let (r, f, g) =
        >>=-eq-value (handle_option inet_pton p.prog_type opt.option_index opt.optarg p)
          (λ q. value (record q { option_enabled_ht = enable opt.option q.option_enabled_ht }))
          {b = q} e in
      (r, f, cc)

  client_handles :
      (i : ℕ) (opt : Opt) (p : InputParser) {r : InputParser}
      → p.prog_type ≡ k_client
      → opt.option_index ≡ i
      → handle_option inet_pton p.prog_type opt.option_index opt.optarg p ≡ value r
      → handle_client_option inet_pton i opt.optarg p ≡ value r
  unfolding handle_option
  client_handles i opt p {r} c d e =
      subst (λ n. handle_client_option inet_pton n opt.optarg p ≡ value r) d
        (subst (λ t. handle_option inet_pton t opt.option_index opt.optarg p ≡ value r) c e)

  -- One option more: what the parser has made sure of grows.
  abbrev Grown : InputParser → Type 0
  Grown q = (srv : Bool) × (period : Bool) × ClientInv inet_pton q srv period

  srv_found :
      (srv period : Bool) (opt : Opt) (p : InputParser) {q : InputParser}
      → ClientInv inet_pton p srv period
      → IsIndexed opt
      → same_text (codes "--srv") opt.option ≡ true
      → when_found inet_pton opt (some srv) p ≡ value q
      → Grown q
  srv_found true period opt p inv idx name e = cc
  srv_found false period opt p {q} inv idx name e =
      let (r, f, g) = found_option opt p {q = q} e in
      let (t, i) =
        srv_option inet_pton opt.optarg p {q = r} period inv
          (client_handles 0 opt p {r = r} inv.of_client (idx.0 name) f) in
      let marked : enable opt.option r.option_enabled_ht ≡ table true period =
        unfold enable in rw (t, name) refl in
      (
        true,
        period,
        subst (λ u. ClientInv inet_pton u true period)
            (sym (g ∙ ap (λ (x : List (List ℕ × Bool)). record r { option_enabled_ht = x }) marked))
            i,
      )

  period_found :
      (srv period : Bool) (opt : Opt) (p : InputParser) {q : InputParser}
      → ClientInv inet_pton p srv period
      → IsIndexed opt
      → same_text (codes "--srv") opt.option ≡ false
      → same_text (codes "--period") opt.option ≡ true
      → when_found inet_pton opt (some period) p ≡ value q
      → Grown q
  period_found srv true opt p inv idx other name e = cc
  period_found srv false opt p {q} inv idx other name e =
      let (r, f, g) = found_option opt p {q = q} e in
      let (t, i) =
        period_option inet_pton opt.optarg p {q = r} srv inv
          (client_handles 1 opt p {r = r} inv.of_client (idx.1 name) f) in
      let marked : enable opt.option r.option_enabled_ht ≡ table srv true =
        unfold enable in rw (t, other, name) refl in
      (
        srv,
        true,
        subst (λ u. ClientInv inet_pton u srv true)
            (sym (g ∙ ap (λ (x : List (List ℕ × Bool)). record r { option_enabled_ht = x }) marked))
            i,
      )

  parse_option-Grown :
      (opt : Opt) (p : InputParser) {q : InputParser} (srv period : Bool)
      → ClientInv inet_pton p srv period
      → IsIndexed opt
      → parse_option inet_pton opt p ≡ value q
      → Grown q
  unfolding parse_option
  parse_option-Grown opt p {q} srv period inv idx e =
      let found : (o : Option Bool)
          → enabled opt.option (table srv period) ≡ o
          → when_found inet_pton opt o p ≡ value q =
        λ o h.
          subst (λ u. when_found inet_pton opt u p ≡ value q)
            (ap (enabled opt.option) inv.options ∙ h) e in
      elim (Bool-cases (same_text (codes "--srv") opt.option)) [
        | inl name ↦
            srv_found srv period opt p {q = q} inv idx name
              (found (some srv) (unfold enabled in rw name refl))
        | inr other ↦ elim (Bool-cases (same_text (codes "--period") opt.option)) [
          | inl name ↦
              period_found srv period opt p {q = q} inv idx other name
                (found (some period) (unfold enabled in rw (other, name) refl))
          | inr neither ↦ let n = found none (unfold enabled in rw (other, neither) refl) in cc
        ]
      ]

  parse_options-Grown :
      (opts : List Opt) (p : InputParser) {q : InputParser} (srv period : Bool)
      → ClientInv inet_pton p srv period
      → All IsIndexed opts
      → parse_options inet_pton opts p ≡ value q
      → Grown q
  unfolding parse_options
  parse_options-Grown [] p {q} srv period inv idx e =
      let same : p ≡ q = cc in (srv, period, subst (λ u. ClientInv inet_pton u srv period) same inv)
  parse_options-Grown (opt ∷ opts) p {q} srv period inv idx e =
      let (r, f, g) =
        >>=-eq-value (parse_option inet_pton opt p) (parse_options inet_pton opts) {b = q} e in
      let (srv', period', inv') = parse_option-Grown opt p {q = r} srv period inv idx.0 f in
      parse_options-Grown opts r {q = q} srv' period' inv' idx.1 g

  all_enabled :
      (p : InputParser) {q : InputParser} (srv period : Bool)
      → ClientInv inet_pton p srv period
      → check_missing (missing p.option_enabled_ht) p ≡ value q
      → (q ≡ p) × (srv ≡ true) × (period ≡ true)
  unfolding missing
  all_enabled p {q} srv period inv e =
      finish srv period (subst (λ t. check_missing (missing t) p ≡ value q) inv.options e)
    where
      finish :
          (a b : Bool)
          → check_missing (missing (table a b)) p ≡ value q
          → (q ≡ p) × (a ≡ true) × (b ≡ true)
      finish true true h = (cc, refl, refl)
      finish true false h = cc
      finish false b h = cc

  -- A client's options that `Parse` accepts, in whatever order they stand, give a host that
  -- `inet_pton` knows, a port of 1 to 65535, and a period of at most 86400, where `getopt_long`
  -- gives each option the index of its name.
  pub parse_client :
      (opts : List Opt) {q : InputParser}
      → All IsIndexed opts
      → parse inet_pton opts (new_parser k_client) ≡ value q
      → InPort q.port × (inet_pton q.host ≡ true) × (q.period ≤ 86400)
  unfolding parse new_parser
  parse_client opts {q} idx e =
      let (r, f, g) =
        >>=-eq-value (parse_options inet_pton opts (new_parser k_client))
          (λ q. check_missing (missing q.option_enabled_ht) q) {b = q} e in
      let start : ClientInv inet_pton (new_parser k_client) false false = record {
        of_client = refl;
        options = refl;
        srv_done = λ h. cc;
        period_done = λ h. cc;
      } in
      let (srv, period, inv) =
        parse_options-Grown opts (new_parser k_client) {q = r} false false start idx f in
      let (same, s, t) = all_enabled r {q = q} srv period inv g in
      subst (λ (u : InputParser). InPort u.port × (inet_pton u.host ≡ true) × (u.period ≤ 86400))
        (sym same) ((inv.srv_done s).0, (inv.srv_done s).1, inv.period_done t)
