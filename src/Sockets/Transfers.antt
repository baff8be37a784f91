-- ===== src/Sockets/Transfers.antt =====
-- The loops of `recv`, `send`, `accept` and `connect` (ttw/socket.cc) on what the calls of the system give.
use ttw.Prelude.{
  ℕ, zero, suc, ◌≡◌, ◌≢◌, refl, inl, inr, Bool, true, false, not, ◌==◌, Option, none, some, List,
  [], ◌∷◌, ◌++◌, if◌then◌else◌, Bool-cases, append_nil, sym, ap, ◌∙◌,
}
use ttw.Addresses.{Ipv4Address}
use ttw.Io.Events.{Event, on_read}
use ttw.Timer.{empty}
use ttw.Io.{IoScheduler, Outcome, returned, threw, add_event}
use ttw.Sockets.{
  Call, gave, interrupted, would_block, failed, Ending, going, thrown, unset, refused, unwatched,
  timed_out, got, Waited, again, ends, wait_for, after_wait, transfer, Socket, recv, connect,
  connected, is_valid_socket, make_socket, on_descriptor, Pause, start_timer, stop_timer, suspended,
}

-- The first positive number that a call gives.
abbrev pub first_count : List Call → Option ℕ
first_count [] = none
first_count (gave (suc n) ∷ cs) = some (suc n)
first_count (_ ∷ cs) = first_count cs

-- A wait that ends the operation gives no number.
abbrev Quiet : Waited → Type 0
Quiet again = Unit {0}
Quiet (ends e) = (n : ℕ) → e ≢ got n

choice-Quiet : (b : Bool) → Quiet (if b then again else ends timed_out)
choice-Quiet true = tt
choice-Quiet false = λ n q. cc

wait_for-Quiet :
    (w : Pause) (timeout : Option ℕ) (fd : ℕ) (event : Event) (s : IoScheduler)
    → Quiet (wait_for w timeout fd event s).0
unfolding wait_for
wait_for-Quiet w none fd event s = λ n q. cc
wait_for-Quiet w (some timeout) fd event s = go (add_event w.ctl w.current fd event empty t).1
  where
    timer : Option ℕ
    timer = (start_timer w timeout s).0

    t : IoScheduler
    t = (start_timer w timeout s).1

    u : IoScheduler
    u = (add_event w.ctl w.current fd event empty t).0

    v : ℕ × IoScheduler
    v = suspended timer fd event w.meanwhile (0, u)

    Ended : Outcome → Waited × IoScheduler
    Ended out = elim out [
      | threw ↦ (ends thrown, u)
      | returned done ↦
          if not done
          then (ends unwatched, stop_timer timer u)
          else (if v.0 == 0 then again else ends timed_out, stop_timer timer v.1)
    ]

    go : (out : Outcome) → Quiet (Ended out).0
    go threw = λ n q. cc
    go (returned true) = choice-Quiet (v.0 == 0)
    go (returned false) = λ n q. cc

transfer-got :
    (timeout : Option ℕ) (fd : ℕ) (event : Event) (cs : List Call) (s : IoScheduler) (n : ℕ)
    → (transfer timeout fd event cs s).0 ≡ got n
    → first_count cs ≡ some n
unfolding transfer
transfer-got timeout fd event [] s n e = cc
transfer-got timeout fd event (gave zero ∷ cs) s n e = transfer-got timeout fd event cs s n e
transfer-got timeout fd event (gave (suc k) ∷ cs) s n e = cc
transfer-got timeout fd event (interrupted ∷ cs) s n e = transfer-got timeout fd event cs s n e
transfer-got timeout fd event (failed x ∷ cs) s n e = transfer-got timeout fd event cs s n e
transfer-got timeout fd event (would_block w ∷ cs) s n e =
    go (wait_for w timeout fd event s) (wait_for-Quiet w timeout fd event s) e
      (λ t q. transfer-got timeout fd event cs t n q)
  where
    go :
        (r : Waited × IoScheduler)
        → Quiet r.0
        → (after_wait (transfer timeout fd event cs) r).0 ≡ got n
        → ((t : IoScheduler) → (transfer timeout fd event cs t).0 ≡ got n → first_count cs ≡ some n)
        → first_count cs ≡ some n
    go (again, t) h e next = next t e
    go (ends x, t) h e next = absurd (h n e)

-- Calls that neither give a positive number nor would block: the end of the stream, EINTR and other errors.
abbrev pub Idle : List Call → Type 0
Idle [] = Unit {0}
Idle (gave zero ∷ cs) = Idle cs
Idle (gave (suc n) ∷ cs) = ⊥
Idle (would_block w ∷ cs) = ⊥
Idle (_ ∷ cs) = Idle cs

pub transfer-Idle :
    (timeout : Option ℕ) (fd : ℕ) (event : Event) (cs ds : List Call) (s : IoScheduler)
    → Idle cs
    → transfer timeout fd event (cs ++ ds) s ≡ transfer timeout fd event ds s
unfolding transfer
transfer-Idle timeout fd event [] ds s h = refl
transfer-Idle timeout fd event (gave zero ∷ cs) ds s h = transfer-Idle timeout fd event cs ds s h
transfer-Idle timeout fd event (gave (suc k) ∷ cs) ds s h = absurd h
transfer-Idle timeout fd event (interrupted ∷ cs) ds s h = transfer-Idle timeout fd event cs ds s h
transfer-Idle timeout fd event (failed x ∷ cs) ds s h = transfer-Idle timeout fd event cs ds s h
transfer-Idle timeout fd event (would_block w ∷ cs) ds s h = absurd h

-- The test for a connected socket, and for its descriptor, in front of a loop.
abbrev Tested :
    (ℕ → IoScheduler → Ending × IoScheduler) → Bool → Option ℕ → IoScheduler → Ending × IoScheduler
Tested run conned o s = if not conned then (refused, s) else on_descriptor (λ fd. run fd s) o s

Tested-got :
    (timeout : Option ℕ) (event : Event) (cs : List Call) (s : IoScheduler) (n : ℕ) (b : Bool)
    (o : Option ℕ)
    → (Tested (λ fd. transfer timeout fd event cs) b o s).0 ≡ got n
    → (b ≡ true) × (first_count cs ≡ some n)
Tested-got timeout event cs s n false o e = cc
Tested-got timeout event cs s n true none e = cc
Tested-got timeout event cs s n true (some fd) e = (refl, transfer-got timeout fd event cs s n e)

-- What `recv` returns is the first positive number that a call gives, and then the socket was connected.
pub recv-first_count :
    (cs : List Call) (k : Socket) (s : IoScheduler) (n : ℕ)
    → (recv cs k s).0 ≡ got n
    → (k.is_conned ≡ true) × (first_count cs ≡ some n)
unfolding recv
recv-first_count cs k s n = Tested-got k.receipt_time on_read cs s n k.is_conned k.sock

-- On a connected socket whose peer has closed it, or on which each call fails with an error but EWOULDBLOCK, `recv` does not
-- return: it makes the call again and again. It does return as soon as a call gives a positive number, and leaves the scheduler as it is.
pub recv-Idle :
    (cs ds : List Call) (n fd : ℕ) (k : Socket) (s : IoScheduler)
    → k.is_conned ≡ true
    → k.sock ≡ some fd
    → Idle cs
    → (recv cs k s ≡ (going, s)) × (recv (cs ++ (gave (suc n) ∷ ds)) k s ≡ (got (suc n), s))
unfolding recv
recv-Idle cs ds n fd k s c e h =
    let calls : (xs : List Call) → recv xs k s ≡ transfer k.receipt_time fd on_read xs s =
      λ xs. rw (c, recv) (rw e refl) in
    (
      calls cs
          ∙ ap (λ xs. transfer k.receipt_time fd on_read xs s) (sym (append_nil cs))
          ∙ transfer-Idle k.receipt_time fd on_read cs [] s h
          ∙ (unfold transfer in refl),
      calls (cs ++ (gave (suc n) ∷ ds))
          ∙ transfer-Idle k.receipt_time fd on_read cs (gave (suc n) ∷ ds) s h
          ∙ (unfold transfer in refl),
    )

-- What `::connect` gives: 0 or -1.
abbrev pub Documented : List Call → Type 0
Documented [] = Unit {0}
Documented (gave (suc n) ∷ cs) = ⊥
Documented (_ ∷ cs) = Documented cs

Documented-first_count : (cs : List Call) → Documented cs → first_count cs ≡ none
Documented-first_count [] h = refl
Documented-first_count (gave zero ∷ cs) h = Documented-first_count cs h
Documented-first_count (gave (suc n) ∷ cs) h = absurd h
Documented-first_count (interrupted ∷ cs) h = Documented-first_count cs h
Documented-first_count (failed e ∷ cs) h = Documented-first_count cs h
Documented-first_count (would_block w ∷ cs) h = Documented-first_count cs h

connected-got :
    (asked : Option Ipv4Address) (e : Ending) (l : Socket)
    → ((n : ℕ) → e ≢ got n)
    → (connected asked e l).is_conned ≡ l.is_conned
unfolding connected
connected-got asked (got n) l h = absurd (h n refl)
connected-got asked going l h = refl
connected-got asked thrown l h = refl
connected-got asked unset l h = refl
connected-got asked refused l h = refl
connected-got asked unwatched l h = refl
connected-got asked timed_out l h = refl

-- As `::connect` gives 0 or -1 and never a positive number, `connect` never returns a positive number and
-- never makes a socket connected, also where the connection has been made.
pub connect-Documented :
    (cs : List Call) (made : Option ℕ) (asked : Option Ipv4Address) (addr : Ipv4Address)
    (timeout : ℕ) (k : Socket) (s : IoScheduler) (n : ℕ)
    → Documented cs
    → ((connect cs made asked addr timeout k s).0 ≢ got (suc n))
      × ((connect cs made asked addr timeout k s).1.is_conned ≡ k.is_conned)
unfolding connect
connect-Documented cs made asked addr timeout k s n h =
    opened (if is_valid_socket named then named else make_socket made named) kept
  where
    named : Socket
    named = record k { remote = some addr }

    kept : (if is_valid_socket named then named else make_socket made named).is_conned ≡ k.is_conned
    kept =
        unfold make_socket in
        elim (Bool-cases (is_valid_socket named)) [ inl y ↦ rw y refl | inr m ↦ rw m refl ]

    no_count : (fd m : ℕ) → (transfer (some timeout) fd on_read cs s).0 ≢ got m
    no_count fd m e =
        let counted : first_count cs ≡ some m = transfer-got (some timeout) fd on_read cs s m e in
        let none_counted : first_count cs ≡ none = Documented-first_count cs h in cc

    Ended : Socket → Option ℕ → Ending × Socket × IoScheduler
    Ended l o = elim o [
      | none ↦ (got 0, l, s)
      | some fd ↦
          let (e, t) = transfer (some timeout) fd on_read cs s in (e, connected asked e l, t)
    ]

    by_socket :
        (l : Socket) (o : Option ℕ)
        → l.is_conned ≡ k.is_conned
        → ((Ended l o).0 ≢ got (suc n)) × ((Ended l o).1.is_conned ≡ k.is_conned)
    by_socket l none e = (λ q. cc, e)
    by_socket l (some fd) e = (
      no_count fd (suc n),
      connected-got asked (transfer (some timeout) fd on_read cs s).0 l (no_count fd) ∙ e,
    )

    opened :
        (l : Socket)
        → l.is_conned ≡ k.is_conned
        → ((Ended l l.sock).0 ≢ got (suc n)) × ((Ended l l.sock).1.is_conned ≡ k.is_conned)
    opened l e = by_socket l l.sock e
