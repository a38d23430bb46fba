-- ===== src/Tests/Runs.antt =====
-- Whole runs: of the server, of the client, and of the server's command line.
use cpp_remote_screen_captur.Base.{
  ◌≡◌, ◌≢◌, ap, refl, List, [], ◌∷◌, ◌++◌, arith, true, false, none, some,
}
use cpp_remote_screen_captur.Base.Bytes.{codes}
use cpp_remote_screen_captur.Base.Decimal.{to_string}
use cpp_remote_screen_captur.Session.State.{eintr, epipe}
use cpp_remote_screen_captur.Session.Socket.{bytes, count}
use cpp_remote_screen_captur.Client.State.{new_client}
use cpp_remote_screen_captur.Client.Setup
use cpp_remote_screen_captur.Client.Messages.{create_authentication_request}
use cpp_remote_screen_captur.Client.Loop
use cpp_remote_screen_captur.Client.Loop.{World, grabbed}
use cpp_remote_screen_captur.Client.Runs.{Spoke, run-Spoke}
use cpp_remote_screen_captur.Server.Run.{
  run, loop, Wait, opened, Setup, Round, dispatch, handle_ready, setup_epoll, setup_server_socket,
  events, failed,
}
use cpp_remote_screen_captur.Base.Table.{find, put}
use cpp_remote_screen_captur.Server.State.{
  Ran, ran, raised, hung, undefined, ◌>>=◌, Server, no_reuse_port, waiting,
}
use cpp_remote_screen_captur.Server.Connections.{accept_new_connections}
use cpp_remote_screen_captur.Server.Loops.{After}
use cpp_remote_screen_captur.Signals.{sigint, readings}
use cpp_remote_screen_captur.Server.Stopping.{rounds_of, undisturbed, loop_stops}
use cpp_remote_screen_captur.Session.Files.{Saving, file_name}
use cpp_remote_screen_captur.Logger.Timestamp.{Tm, get_current_timestamp, file_mask}
use cpp_remote_screen_captur.Logger.Stamps.{file_name-ne}
use cpp_remote_screen_captur.Server.Starts.{RunOk, run-RunOk}
use cpp_remote_screen_captur.InputParser.Numbers.{thrown, parse_num, invalid_num, out_of_range}
use cpp_remote_screen_captur.InputParser.Options.{k_server}
use cpp_remote_screen_captur.InputParser.Parse.{main, terminates}
use cpp_remote_screen_captur.InputParser.Decimals.{parse_num-to_string}
use cpp_remote_screen_captur.InputParser.ServerOptions.{port_option, main-to_string}
use cpp_remote_screen_captur.Tests.Servers.{empty_server, arrivals, request, client_session}

-- The server's socket is 3, and epoll's is 4.
abbrev system : Setup
system = record {
  socket = opened 3;
  reuse_addr = none;
  reuse_port = some eintr;
  keep_alive = none;
  bind = none;
  listen = none;
  epoll_create = opened 4;
  epoll_add = none;
}

-- A round in which a connection comes, one with the client's request, and the flag.
abbrev rounds : List Round
rounds =
    record {
      stopped = false;
      wait = events (record { event = record request { fd = 3 }; accepts = arrivals } ∷ []);
    }
    ∷ record { stopped = false; wait = events (record { event = request; accepts = [] } ∷ []) }
    ∷ record { stopped = true; wait = failed eintr }
    ∷ []

-- The server after the first round.
abbrev connected : Server
connected = accept_new_connections arrivals (record empty_server {
  server_fd = some 3;
  epoll_fd = some 4;
  interest = (3, false) ∷ [];
  log = no_reuse_port eintr ∷ waiting ∷ [];
})

no_condition : {A : Type 0} → (r : Ran A) → After r (λ _. Unit {0})
no_condition (ran a v) = tt
no_condition (raised e v) = tt
no_condition (hung v) = tt
no_condition undefined = tt

run-RunOk_example : RunOk (run system rounds empty_server)
unfolding setup_server_socket setup_epoll find put dispatch handle_ready
run-RunOk_example = run-RunOk system rounds empty_server refl (
  ((unfold find in refl, tt), tt),
  (
    (tt, no_condition (dispatch (record { event = request; accepts = [] }) connected)),
    no_condition (handle_ready (record { event = request; accepts = [] } ∷ []) connected),
  ),
)

abbrev world : World
world = record {
  host_name = some (codes "pc");
  user_name = some (codes "me");
  connecting = record { socket = Setup.opened 3; address_ok = true; connect_error = none };
  auth_sends = count 13 ∷ [];
  auth_recvs = bytes (b'Y' ∷ []) ∷ [];
  rounds = record { grab = grabbed (7 ∷ []); sends = count 4 ∷ [] } ∷ [];
  flags = false ∷ false ∷ [];
}

run-Spoke_example :
    Spoke world []
      (create_authentication_request (codes "pc") (codes "me"))
      (Loop.run world (new_client (codes "10.0.0.1") 5000 1)).1
unfolding Setup.setup_username Setup.setup_hostname
run-Spoke_example = run-Spoke world (new_client (codes "10.0.0.1") 5000 1) ((omega arith), tt)

parse_num-to_string_example : parse_num (to_string 80 ++ codes "x") ≡ thrown invalid_num
parse_num-to_string_example = parse_num-to_string 80 (codes "x") (omega arith) refl

main-to_string_example :
    main (λ _. true) k_server (port_option (λ _. true) (to_string 2147483648) ∷ [])
    ≡ terminates out_of_range
main-to_string_example = main-to_string (λ _. true) 2147483648 (omega arith)

-- Two rounds, and SIGINT during the second wait.
abbrev two_waits : List Wait
two_waits =
    events (record { event = record request { fd = 3 }; accepts = arrivals } ∷ [])
    ∷ failed eintr
    ∷ []

loop_stops_example :
    loop
      (rounds_of
        (readings false ([] ∷ (1 ∷ []) ∷ (sigint ∷ []) ∷ [] ∷ []))
        (two_waits ++ events [] ∷ failed epipe ∷ []))
      empty_server
    ≡ (loop (undisturbed two_waits) empty_server >>= λ _ u. ran true u)
loop_stops_example =
    loop_stops ([] ∷ (1 ∷ []) ∷ []) ([] ∷ []) [] [] two_waits (failed epipe ∷ []) (events [])
      empty_server (tt, ((omega arith, tt), tt)) tt refl

abbrev noon : Tm
noon = record { tm_year = 126; tm_mon = 0; tm_mday = 1; tm_hour = 12; tm_min = 0; tm_sec = 0 }

abbrev saving_at : Tm → Saving
saving_at t = record {
  timestamp = get_current_timestamp t file_mask;
  create_error = none;
  opened = true;
}

abbrev second_later : Tm
second_later = record noon { tm_sec = 1 }

file_name-ne_example :
    file_name (saving_at noon) client_session ≢ file_name (saving_at second_later) client_session
file_name-ne_example =
    file_name-ne client_session noon second_later (saving_at noon) (saving_at second_later)
      (omega arith) (omega arith) refl refl (λ e. ground (arith, ap (λ (t : Tm). t.tm_sec) e))
