-- ===== src/Server/Requests.antt =====
-- server.cc and session.cc: a client's request over a whole run of the server.
use cpp_remote_screen_captur.Base.{
  ℕ, suc, All, ◌<◌, ◌^◌, ◌≡◌, refl, sym, ap, ◌∙◌, Bool, ◌&&◌, List, [], ◌∷◌, ◌++◌, length, some,
  append-nil, ◌⊎◌, inl, inr,
}
use cpp_remote_screen_captur.Base.Table.{find, put, find-put_self}
use cpp_remote_screen_captur.Session.State.{Session, Message}
use cpp_remote_screen_captur.Session.Socket.{Recv, send_auth_response}
use cpp_remote_screen_captur.Session.Auth.{is_valid_name}
use cpp_remote_screen_captur.Session.AuthDecides.{handle_auth_decides}
use cpp_remote_screen_captur.Session.Sending.{send_auth_response_open}
use cpp_remote_screen_captur.Session.Framing.{
  IsGood, Frame, encode_all, hold, enqueue, message_of, IsPartial,
}
use cpp_remote_screen_captur.Session.Chunks.{received, received_all}
use cpp_remote_screen_captur.Client.Messages.{auth_frame}
use cpp_remote_screen_captur.Conversation.{auth_frame-IsGood}
use cpp_remote_screen_captur.Server.State.{Server, Event, ran}
use cpp_remote_screen_captur.Server.Handlers.{handle_event, after_auth}
use cpp_remote_screen_captur.Server.Invariant.{Inv}
use cpp_remote_screen_captur.Server.Arrivals.{IsArrival, handle_event-frames}
use cpp_remote_screen_captur.Server.Fronts.{handle_message-auth}
use cpp_remote_screen_captur.Server.Images.{hold_keeps, hold-hold}
use cpp_remote_screen_captur.Server.Answers.{
  Answers, QuietAt, Answered, whole, respond, hold_others, arrival-QuietAt,
}
use cpp_remote_screen_captur.Server.Interleaving.{run_keeps, Run}

module _ (hostname username : List ℕ) (short : length hostname < 2 ^ 16)
    (short_user : length username < 2 ^ 16) where
  abbrev request : Frame
  request = auth_frame hostname username

  -- An event that completes the request answers it.
  arrival-Answered :
      (fd : ℕ) (v : Server) (ev : Event) (held tail host user : List ℕ)
      → QuietAt fd v held [] [] host user
      → IsArrival fd ev
      → Answers ev
      → IsPartial tail
      → held ++ received ev.in_recvs ≡ encode_all (request ∷ []) ++ tail
      → (u : Server) × (handle_event ev v ≡ ran tt u) × Answered fd u tail hostname username
  arrival-Answered fd v ev held tail host user h a b partial stream =
      let t : Session = h.session in
      let t1 : Session = hold (enqueue t (request ∷ [])) tail in
      let first =
        handle_event-frames ev t v held tail (request ∷ [])
          (auth_frame-IsGood hostname username short short_user, tt) partial stream fd a
          (h.found ∙ ap some (sym h.quiet.holds)) in
      let (ms, files, hs, us, r, s) = hold_keeps (enqueue t (request ∷ [])) tail in
      let queue : t1.messages ≡ message_of request ∷ [] =
        ms ∙ ap (λ (q : List Message). q ++ message_of request ∷ []) h.quiet.empty in
      let (t2, handled, d) =
        handle_auth_decides t1 (message_of request) [] queue hostname username refl short
          short_user in
      let ok : Bool = is_valid_name hostname && is_valid_name username in
      let p : Bool × Session = send_auth_response ev.in_sends ok t2 in
      let (fine, only, answer) =
        send_auth_response_open ev.in_sends ok t2 b.taking
          (ap (λ (x : Session). x.response) d.others ∙ r ∙ h.quiet.responds)
          (ap (λ (x : Session). x.sent) d.others ∙ s ∙ h.quiet.sends) in
      let (u, stored, table) = respond ev v p fine b.watched in
      let t3 : Session = p.1 in
      let chain =
        handle_message-auth ev t1 v request [] queue refl ∙ ap (after_auth ev v) handled ∙ stored in
      (
        u,
        first ∙ ap (whole ev) chain,
        record {
          response = t3.response;
          sent = t3.sent;
          host = t3.client_hostname;
          user = t3.client_username;
          at = record {
            session = t3;
            found =
                ap (find fd) table
                ∙ ap (λ k. find fd (put k t3 v.table)) a.own
                ∙ find-put_self fd t3 v.table;
            quiet = record {
              holds =
                  hold_others t2 t3 tail t2.client_hostname t2.client_username t2.messages
                    t3.response t3.sent t3.log t2.files
                    (hold_others t1 t2 tail t2.client_hostname t2.client_username [] t1.response
                      t1.sent t2.log t1.files (hold-hold (enqueue t (request ∷ [])) tail) d.others)
                    only;
              empty =
                  ap (λ (x : Session). x.messages) only ∙ ap (λ (x : Session). x.messages) d.others;
              wrote =
                  ap (λ (x : Session). x.files) only
                  ∙ ap (λ (x : Session). x.files) d.others
                  ∙ files
                  ∙ h.quiet.wrote;
              responds = refl;
              sends = refl;
              hostname = refl;
              username = refl;
            };
          };
          answer = answer;
          names = λ vh vu.
              let n = d.names vh vu in
              (
                ap (λ (x : Session). x.client_hostname) only ∙ n.0,
                ap (λ (x : Session). x.client_username) only ∙ n.1,
              );
        },
      )

single_cases {ℓ} :
    {A : Type ℓ} (front back : List A) (x : A)
    → x ∷ [] ≡ front ++ back
    → ((front ≡ []) × (back ≡ x ∷ [])) ⊎ ((front ≡ x ∷ []) × (back ≡ []))
single_cases [] back x e = inl (refl, sym e)
single_cases (y ∷ []) back x e = inr (cc, cc)
single_cases (y ∷ z ∷ front) back x e = cc

first_nil {ℓ} : {A : Type ℓ} (front back : List A) → [] ≡ front ++ back → front ≡ []
first_nil [] back e = refl
first_nil (y ∷ front) back e = cc

moved :
    (fd : ℕ) (v u : Server) (held response sent host user : List ℕ)
    → ((s : Session) → find fd v.table ≡ some s → find fd u.table ≡ some s)
    → QuietAt fd v held response sent host user
    → QuietAt fd u held response sent host user
moved fd v u held response sent host user k h = record {
  session = h.session;
  found = k h.session h.found;
  quiet = h.quiet;
}

module _ (fd : ℕ) (w : Server) (tail : List ℕ) (last : IsPartial tail)
    (hostname username host user : List ℕ) (short : length hostname < 2 ^ 16)
    (short_user : length username < 2 ^ 16) where
  -- Before and after the request has come.
  abbrev Asked : List Frame → ℕ → Server → List ℕ → Type 0
  Asked seen n x held =
      ((seen ≡ []) × QuietAt fd x held [] [] host user)
      ⊎ ((seen ≡ auth_frame hostname username ∷ []) × Answered fd x held hostname username)

  step-Asked :
      (v : Server) (ev : Event) (held rest : List ℕ) (seen fs back : List Frame) (n : ℕ)
      → Asked seen n v held
      → IsArrival fd ev
      → Answers ev
      → IsPartial rest
      → held ++ received ev.in_recvs ≡ encode_all fs ++ rest
      → (seen ++ fs) ++ back ≡ auth_frame hostname username ∷ []
      → (u : Server) × (handle_event ev v ≡ ran tt u) × Asked (seen ++ fs) (suc n) u rest
  step-Asked v ev held rest seen fs back n (inl (empty, h)) a b partial stream all =
      let f : Frame = auth_frame hostname username in
      let now : seen ++ fs ≡ fs = ap (λ (x : List Frame). x ++ fs) empty in
      elim (single_cases fs back f (sym all ∙ ap (λ (x : List Frame). x ++ back) now)) [
        | inl (none_yet, e) ↦
            let (u, ended, q) =
              arrival-QuietAt fd v ev held rest [] [] host user h a partial
                (stream ∙ ap (λ (x : List Frame). encode_all x ++ rest) none_yet) in
            (u, ended, inl (now ∙ none_yet, q))
        | inr (come, e) ↦
            let (u, ended, q) =
              arrival-Answered hostname username short short_user fd v ev held rest host user h a b
                partial (stream ∙ ap (λ (x : List Frame). encode_all x ++ rest) come) in
            (u, ended, inr (now ∙ come, q))
      ]
  step-Asked v ev held rest seen fs back n (inr (come, h)) a b partial stream all =
      let f : Frame = auth_frame hostname username in
      let split : f ∷ [] ≡ f ∷ (fs ++ back) =
        sym all ∙ ap (λ (x : List Frame). x ++ fs ++ back) come in
      let none_more : fs ≡ [] = first_nil fs back (cc) in
      let (u, ended, q) =
        arrival-QuietAt fd v ev held rest h.response h.sent h.host h.user h.at a partial
          (stream ∙ ap (λ (x : List Frame). encode_all x ++ rest) none_more) in
      (
        u,
        ended,
        inr (
          ap (λ (x : List Frame). seen ++ x) none_more ∙ append-nil seen ∙ come,
          record {
            response = h.response;
            sent = h.sent;
            host = h.host;
            user = h.user;
            at = q;
            answer = h.answer;
            names = h.names;
          },
        ),
      )

  moves-Asked :
      (v u : Server) (held : List ℕ) (seen : List Frame) (n : ℕ)
      → ((s : Session) → find fd v.table ≡ some s → find fd u.table ≡ some s)
      → Asked seen n v held
      → Asked seen n u held
  moves-Asked v u held seen n k (inl (e, h)) = inl (e, moved fd v u held [] [] host user k h)
  moves-Asked v u held seen n k (inr (e, h)) = inr (
    e,
    record {
      response = h.response;
      sent = h.sent;
      host = h.host;
      user = h.user;
      at = moved fd v u held h.response h.sent h.host h.user k h.at;
      answer = h.answer;
      names = h.names;
    },
  )

  pub Run-Answered :
      (v : Server) (answers : List (List Recv)) (held : List ℕ)
      → Run Answers fd w v answers
      → Inv v
      → QuietAt fd v held [] [] host user
      → IsPartial held
      → held ++ received_all answers ≡ encode_all (auth_frame hostname username ∷ []) ++ tail
      → Answered fd w tail hostname username
  Run-Answered v answers held run inv h partial stream =
      let good : All IsGood (auth_frame hostname username ∷ []) =
        (auth_frame-IsGood hostname username short short_user, tt) in
      elim (run_keeps fd w tail last (auth_frame hostname username ∷ []) Asked
        (λ x ev b rest seen fs back n r a p g q e all.
          step-Asked x ev b rest seen fs back n r a p q e all)
        moves-Asked v answers held [] (auth_frame hostname username ∷ []) 0 run inv (inl (refl, h))
        good partial stream refl) [ inl (e, q) ↦ cc | inr (e, q) ↦ q ]
