-- ===== src/Signals/Delivery.antt =====
-- server.cc and client.cc: the flag after a list of signals.
use cpp_remote_screen_captur.Base.{
  ℕ, ◌≡◌, ◌≢◌, refl, List, [], ◌∷◌, ◌++◌, true, false, ==_false, All, arith,
}
use cpp_remote_screen_captur.Signals.{sigint, signal_handler, deliver}

-- None of the signals is SIGINT.
abbrev pub IsQuiet : List ℕ → Type 0
IsQuiet = All (λ sig. sig ≢ sigint)

deliver-set : (sigs : List ℕ) → deliver sigs true ≡ true
unfolding deliver signal_handler
deliver-set [] = refl
deliver-set (sig ∷ sigs) = ground (arith, deliver-set sigs)

pub deliver-IsQuiet : (sigs : List ℕ) → IsQuiet sigs → deliver sigs false ≡ false
unfolding deliver signal_handler
deliver-IsQuiet [] h = refl
deliver-IsQuiet (sig ∷ sigs) h = rw (==_false sig sigint h.0) (deliver-IsQuiet sigs h.1)

pub deliver-sigint :
    (before after : List ℕ) → IsQuiet before → deliver (before ++ sigint ∷ after) false ≡ true
unfolding deliver signal_handler
deliver-sigint [] after h = deliver-set after
deliver-sigint (sig ∷ before) after h =
    rw (==_false sig sigint h.0, deliver) (deliver-sigint before after h.1)
