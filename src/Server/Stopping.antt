-- ===== src/Server/Stopping.antt =====
-- server.cc: `EventLoop` and the flag that a signal sets.
use cpp_remote_screen_captur.Base.{
  ℕ, ◌≡◌, refl, ap, ◌∙◌, List, [], ◌∷◌, ◌++◌, length, map, Bool, true, false, All, arith,
}
use cpp_remote_screen_captur.Session.State.{eagain, ewouldblock, eintr, epipe, other}
use cpp_remote_screen_captur.Signals.{sigint, readings}
use cpp_remote_screen_captur.Signals.Delivery.{IsQuiet, deliver-IsQuiet, deliver-sigint}
use cpp_remote_screen_captur.Server.State.{Server, Ran, ran, raised, hung, undefined, ◌>>=◌}
use cpp_remote_screen_captur.Server.Run.{Wait, events, failed, Round, loop, handle_ready}

-- The rounds of a loop that reads these flags, as long as there are both.
abbrev pub rounds_of : List Bool → List Wait → List Round
rounds_of [] waits = []
rounds_of (f ∷ flags) [] = []
rounds_of (f ∷ flags) (w ∷ waits) = record { stopped = f; wait = w } ∷ rounds_of flags waits

-- The rounds of a loop that never finds the flag set.
abbrev pub undisturbed : List Wait → List Round
undisturbed = map (λ (w : Wait). record { stopped = false; wait = w })

ends : Bool → Server → Ran Bool
ends b u = ran true u

then_ends :
    (r : Ran (Unit {0})) (f g : Server → Ran Bool)
    → ((u : Server) → f u ≡ (g u >>= ends))
    → (r >>= λ _ u. f u) ≡ (r >>= (λ _ u. g u) >>= ends)
then_ends (ran a v) f g k = k v
then_ends (raised e v) f g k = refl
then_ends (hung v) f g k = refl
then_ends undefined f g k = refl

-- A round more in front of two loops of which one ends where the other is told to.
loop-more :
    (w : Wait) (rs qs : List Round) (v : Server)
    → ((u : Server) → loop rs u ≡ (loop qs u >>= ends))
    → loop (record { stopped = false; wait = w } ∷ rs) v
      ≡ (loop (record { stopped = false; wait = w } ∷ qs) v >>= ends)
unfolding loop
loop-more (failed eintr) rs qs v k = k v
loop-more (failed eagain) rs qs v k = refl
loop-more (failed ewouldblock) rs qs v k = refl
loop-more (failed epipe) rs qs v k = refl
loop-more (failed (other n)) rs qs v k = refl
loop-more (events es) rs qs v k = then_ends (handle_ready es v) (loop rs) (loop qs) k

-- If SIGINT first comes after the flag has been read clear in as many rounds as there are waits
-- in front, the event loop does what it does with these waits, and if that returns it ends at the
-- next reading of the flag, whatever would come after.
pub loop_stops :
    (quiet more : List (List ℕ)) (before after : List ℕ) (front back : List Wait) (w : Wait)
    (v : Server)
    → All IsQuiet quiet
    → IsQuiet before
    → length quiet ≡ length front
    → loop
        (rounds_of
          (readings false (quiet ++ (before ++ sigint ∷ after) ∷ more))
          (front ++ w ∷ back))
        v
      ≡ (loop (undisturbed front) v >>= λ _ u. ran true u)
unfolding loop readings ends
loop_stops [] more before after [] back w v calm first n =
    rw (deliver-sigint before after first) refl
loop_stops [] more before after (f ∷ front) back w v calm first n = ground arith
loop_stops (q ∷ quiet) more before after [] back w v calm first n = ground arith
loop_stops (q ∷ quiet) more before after (f ∷ front) back w v calm first n =
    ap
      (λ b.
        loop
          (rounds_of (b ∷ readings b (quiet ++ (before ++ sigint ∷ after) ∷ more))
            (f ∷ front ++ w ∷ back))
          v)
      (deliver-IsQuiet q calm.0)
    ∙ loop-more f
        (rounds_of (readings false (quiet ++ (before ++ sigint ∷ after) ∷ more))
          (front ++ w ∷ back))
        (undisturbed front) v
        (λ u. loop_stops quiet more before after front back w u calm.1 first (cc))
