-- ===== src/Server/Starts.antt =====
-- server.cc: `Run`, from the set-up to its end.
use cpp_remote_screen_captur.Base.{
  ℕ, ◌≡◌, refl, sym, ap, subst, ◌∙◌, Bool, List, [], Option, none, some, ◌⊎◌, inl, inr,
}
use cpp_remote_screen_captur.Base.Table.{find}
use cpp_remote_screen_captur.Session.State.{Session, Errno}
use cpp_remote_screen_captur.Server.State.{
  Server, ServerError, reuse_addr_failed, bind_failed, listen_failed, epoll_ctl_failed, Ran, ran,
  raised, hung, undefined, ◌>>=◌, print, run_error, waiting, no_reuse_port, no_keep_alive,
}
use cpp_remote_screen_captur.Server.Run.{
  Descriptor, opened, refused, Setup, checked, warned, with_socket, with_epoll, watch,
  setup_server_socket, setup_epoll, Round, event_loop, caught, run,
}
use cpp_remote_screen_captur.Server.Invariant.{Inv}
use cpp_remote_screen_captur.Server.Loops.{After, FreshRounds, IsSystem, LoopOk, loop-LoopOk}

-- Setting up leaves the table as it is, or throws an error of the system.
abbrev SetupOk : List (ℕ × Session) → Ran (Unit {0}) → Type 0
SetupOk t (ran u v) = v.table ≡ t
SetupOk t (raised e v) = IsSystem e
SetupOk t (hung v) = ⊥
SetupOk t undefined = ⊥

SetupOk->>= :
    (t : List (ℕ × Session)) (r : Ran (Unit {0})) (f : Unit {0} → Server → Ran (Unit {0}))
    → SetupOk t r
    → ((v : Server) → v.table ≡ t → SetupOk t (f tt v))
    → SetupOk t (r >>= f)
SetupOk->>= t (ran u v) f h k = k v h
SetupOk->>= t (raised e v) f h k = h
SetupOk->>= t (hung v) f h k = absurd h
SetupOk->>= t undefined f h k = absurd h

checked-SetupOk :
    (t : List (ℕ × Session)) (o : Option Errno) (error : Errno → ServerError) (v : Server)
    → ((e : Errno) → IsSystem (error e))
    → v.table ≡ t
    → SetupOk t (checked o error v)
checked-SetupOk t none error v system h = h
checked-SetupOk t (some e) error v system h = system e

warned-table :
    (o : Option Errno) (line : Server → Errno → Server) (v : Server)
    → ((w : Server) (e : Errno) → (line w e).table ≡ w.table)
    → (warned o line v).table ≡ v.table
warned-table none line v k = refl
warned-table (some e) line v k = k v e

with_socket-SetupOk : (d : Descriptor) (v : Server) → SetupOk v.table (with_socket d v)
with_socket-SetupOk (opened fd) v = refl
with_socket-SetupOk (refused e) v = tt

with_epoll-SetupOk : (d : Descriptor) (v : Server) → SetupOk v.table (with_epoll d v)
with_epoll-SetupOk (opened fd) v = refl
with_epoll-SetupOk (refused e) v = tt

watch-table : (fd : Option ℕ) (v : Server) → (watch fd v).table ≡ v.table
watch-table none v = refl
watch-table (some fd) v = refl

setup_server_socket-SetupOk :
    (sys : Setup) (v : Server) → SetupOk v.table (setup_server_socket sys v)
unfolding setup_server_socket
setup_server_socket-SetupOk sys v =
    let t = v.table in
    SetupOk->>= t (with_socket sys.socket v) _ (with_socket-SetupOk sys.socket v) λ v1 h1.
      SetupOk->>= t (checked sys.reuse_addr reuse_addr_failed v1) _
        (checked-SetupOk t sys.reuse_addr reuse_addr_failed v1 (λ e. tt) h1)
        λ v2 h2.
          let v3 = warned sys.reuse_port (λ w e. print (no_reuse_port e) w) v2 in
          let h4 =
            warned-table sys.keep_alive (λ w e. print (no_keep_alive e) w) v3 (λ w e. refl)
            ∙ warned-table sys.reuse_port (λ w e. print (no_reuse_port e) w) v2 (λ w e. refl)
            ∙ h2 in
          SetupOk->>= t (checked sys.bind bind_failed _) _
            (checked-SetupOk t sys.bind bind_failed _ (λ e. tt) h4)
            λ v5 h5. checked-SetupOk t sys.listen listen_failed v5 (λ e. tt) h5

setup_epoll-SetupOk : (sys : Setup) (v : Server) → SetupOk v.table (setup_epoll sys v)
unfolding setup_epoll
setup_epoll-SetupOk sys v =
    SetupOk->>= v.table (with_epoll sys.epoll_create v) _ (with_epoll-SetupOk sys.epoll_create v)
      λ v1 h1.
        SetupOk->>= v.table (checked sys.epoll_add epoll_ctl_failed v1) _
          (checked-SetupOk v.table sys.epoll_add epoll_ctl_failed v1 (λ e. tt) h1)
          λ v2 h2. watch-table v2.server_fd v2 ∙ h2

-- What `Run` does before its loop.
abbrev started : Setup → Server → Ran (Unit {0})
started sys v = setup_server_socket sys v >>= λ _ v1. setup_epoll sys v1

-- `accept` never gives the loop a descriptor that is open.
abbrev pub FreshRun : Setup → List Round → Server → Type 0
FreshRun sys rounds v =
    After (setup_server_socket sys v >>= λ _ v1. setup_epoll sys v1)
      (λ u. FreshRounds rounds (print waiting u))

-- How `Run` may end.
abbrev pub RunOk : Ran Bool → Type 0
RunOk (ran ended w) =
    Inv w ⊎ ((e : ServerError) × (u : Server) × (w ≡ print (run_error e) u) × IsSystem e)
RunOk (raised e w) = ⊥
RunOk (hung w) = Unit {0}
RunOk undefined = ⊥

caught-RunOk : (r : Ran Bool) → LoopOk r → RunOk (caught r)
caught-RunOk (ran ended w) h = inl h
caught-RunOk (raised e w) h = inr (e, w, refl, h)
caught-RunOk (hung w) h = tt
caught-RunOk undefined h = h

empty-Inv : (v : Server) → v.table ≡ [] → Inv v
unfolding find
empty-Inv v e j s f = let g : find j [] ≡ some s = ap (find j) (sym e) ∙ f in cc

looping :
    (rounds : List Round) (r : Ran (Unit {0}))
    → SetupOk [] r
    → After r (λ u. FreshRounds rounds (print waiting u))
    → LoopOk (r >>= λ _ u. event_loop rounds u)
unfolding event_loop
looping rounds (ran x u) h fresh =
    loop-LoopOk rounds (print waiting u) (empty-Inv (print waiting u) h) fresh
looping rounds (raised e u) h fresh = h
looping rounds (hung u) h fresh = absurd h
looping rounds undefined h fresh = absurd h

>>=-assoc {ℓ κ μ} :
    {A : Type ℓ} {B : Type κ} {C : Type μ} (r : Ran A) (f : A → Server → Ran B)
    (g : B → Server → Ran C)
    → (r >>= f >>= g) ≡ (r >>= λ a v. f a v >>= g)
>>=-assoc (ran a v) f g = refl
>>=-assoc (raised e v) f g = refl
>>=-assoc (hung v) f g = refl
>>=-assoc undefined f g = refl

-- A server that starts with no session and to which `accept` never gives a descriptor that is
-- open runs without reading an empty queue and without an exception out of `Run`, whatever
-- clients send and the system answers: `Run` goes on or returns with every session served, or
-- returns after printing an error of a system call, never of a session, or does not return since
-- a parser does not.
pub run-RunOk :
    (sys : Setup) (rounds : List Round) (v : Server)
    → v.table ≡ []
    → FreshRun sys rounds v
    → RunOk (run sys rounds v)
unfolding run
run-RunOk sys rounds v e fresh =
    let whole : Ran (Unit {0}) = started sys v in
    let up : SetupOk [] whole =
      subst (λ t. SetupOk t whole) e
        (SetupOk->>= v.table (setup_server_socket sys v) (λ _ v1. setup_epoll sys v1)
          (setup_server_socket-SetupOk sys v)
          (λ u h. subst (λ t. SetupOk t (setup_epoll sys u)) h (setup_epoll-SetupOk sys u))) in
    caught-RunOk _ (
      subst (λ (r : Ran Bool). LoopOk r)
        (>>=-assoc (setup_server_socket sys v) (λ _ v1. setup_epoll sys v1)
          (λ _ u. event_loop rounds u))
        (looping rounds whole up fresh))
