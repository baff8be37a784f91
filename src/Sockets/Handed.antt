-- ===== src/Sockets/Handed.antt =====
-- Which connections the loop of `TcpServer::startAcceptr` (ttw/tcpserver.cc) hands over.
use ttw.Prelude.{
  ℕ, zero, suc, ◌≡◌, refl, Bool, true, false, not, Option, none, some, List, [], ◌∷◌, ◌++◌,
  if◌then◌else◌, sym, ap, ◌∙◌, subst,
}
use mathlib.Core.List.{append-nil, append_assoc}
use ttw.Prelude.Word.{u64_max}
use ttw.Addresses.{Ipv4Address}
use ttw.Io.Events.{on_read}
use ttw.Io.{IoScheduler, Task}
use ttw.Io.Cancel.{spawned, add_cb-queue}
use ttw.Sockets.{
  Call, gave, interrupted, would_block, failed, Ending, going, got, Waited, again, ends, wait_for,
  after_wait, transfer, Socket, accept, accept_loop, accepted, init_socket, new_socket,
  get_local_address, get_remote_address, is_valid_socket, set_timeout, on_descriptor,
}
use ttw.Sockets.Server.{Visit, hand_over, comes_back, start_acceptr}
use ttw.Sockets.Accepting.{kept, accept_loop-kept}
use ttw.Sockets.Transfers.{first_count}

-- Each wait goes on, and what happens during it leaves the queue as it was.
abbrev pub Calm : ℕ → List Call → IoScheduler → Type 0
Calm fd [] s = Unit {0}
Calm fd (gave (suc n) ∷ cs) s = Unit {0}
Calm fd (would_block w ∷ cs) s =
    let (x, t) = wait_for w (some u64_max) fd on_read s in
    (x ≡ again) × (t.queue ≡ s.queue) × Calm fd cs t
Calm fd (c ∷ cs) s = Calm fd cs s

abbrev pub CalmVisits : ℕ → ℕ → Socket → List Visit → IoScheduler → Type 0
CalmVisits fd timeout k [] s = Unit {0}
CalmVisits fd timeout k (v ∷ vs) s =
    Calm fd (kept false v.calls) s
    × (let (e, made, t) = accept v.calls v.local v.remote k s in
        CalmVisits fd timeout k vs (hand_over timeout v.hand made t))

-- The socket of a connection.
abbrev pub client : ℕ → ℕ → Option Ipv4Address → Option Ipv4Address → Socket
client timeout n local remote = record {
  sock = some n;
  is_conned = true;
  time_out = some timeout;
  receipt_time = some timeout;
  send_time = some timeout;
  local = local;
  remote = remote;
}

-- The tasks for a connection; none where the system does not tell its local address.
abbrev pub served : ℕ → ℕ → Visit → List Task
served timeout n v = elim v.local [
  | none ↦ []
  | some a ↦ spawned (v.hand (client timeout n (some a) v.remote))
]

-- The tasks for all visits, up to the one that stops the server or in which there is no connection to keep.
abbrev pub handed : ℕ → List Visit → List Task
handed timeout [] = []
handed timeout (v ∷ vs) =
    let rest = handed timeout vs in
    elim (first_count (kept false v.calls)) [
      | none ↦ []
      | some n ↦ served timeout n v ++ (if v.stopped then [] else rest)
    ]

abbrev ending : Option ℕ → Ending
ending none = going
ending (some n) = got n

transfer-Calm :
    (fd : ℕ) (cs : List Call) (s : IoScheduler)
    → Calm fd cs s
    → let (e, t) = transfer (some u64_max) fd on_read cs s in
      (e ≡ ending (first_count cs)) × (t.queue ≡ s.queue)
unfolding transfer
transfer-Calm fd [] s h = (refl, refl)
transfer-Calm fd (gave zero ∷ cs) s h = transfer-Calm fd cs s h
transfer-Calm fd (gave (suc n) ∷ cs) s h = (refl, refl)
transfer-Calm fd (interrupted ∷ cs) s h = transfer-Calm fd cs s h
transfer-Calm fd (failed e ∷ cs) s h = transfer-Calm fd cs s h
transfer-Calm fd (would_block w ∷ cs) s (goes_on, same, h) =
    go (wait_for w (some u64_max) fd on_read s) goes_on same
      (transfer-Calm fd cs (wait_for w (some u64_max) fd on_read s).1 h)
  where
    Ends : Ending × IoScheduler → IoScheduler → Type 0
    Ends r t = (r.0 ≡ ending (first_count cs)) × (r.1.queue ≡ t.queue)

    go :
        (r : Waited × IoScheduler)
        → r.0 ≡ again
        → r.1.queue ≡ s.queue
        → Ends (transfer (some u64_max) fd on_read cs r.1) r.1
        → Ends (after_wait (transfer (some u64_max) fd on_read cs) r) s
    go (again, t) e q (ended, kept_queue) = (ended, kept_queue ∙ q)
    go (ends x, t) e q h = absurd (cc)

-- A round of startAcceptr from the end of the loop of `accept` on.
finish : ℕ → Visit → (IoScheduler → IoScheduler) → Ending × IoScheduler → IoScheduler
unfolding accepted hand_over comes_back
finish timeout v rest (e, t) =
    let u = hand_over timeout v.hand (accepted v.local v.remote e) t in
    if not (comes_back e) then t else if v.stopped then u else rest u

hand_over-served :
    (timeout n : ℕ) (v : Visit) (local : Option Ipv4Address) (t : IoScheduler)
    → (hand_over timeout v.hand (accepted local v.remote (got n)) t).queue
      ≡ t.queue ++ served timeout n (record v { local = local })
unfolding hand_over accepted init_socket new_socket get_local_address get_remote_address
    is_valid_socket set_timeout
hand_over-served timeout n v none t = sym (append-nil t.queue)
hand_over-served timeout n v (some a) t = add_cb-queue _ t

stop-queue :
    (b : Bool) (q xs ys : List Task) (u w : IoScheduler)
    → u.queue ≡ q ++ xs
    → w.queue ≡ u.queue ++ ys
    → (if b then u else w).queue ≡ q ++ (xs ++ (if b then [] else ys))
stop-queue true q xs ys u w e f = e ∙ ap (λ l. q ++ l) (sym (append-nil xs))
stop-queue false q xs ys u w e f = f ∙ ap (λ l. l ++ ys) e ∙ append_assoc q xs ys

finish-queue :
    (timeout : ℕ) (v : Visit) (rest : IoScheduler → IoScheduler) (ys : List Task) (o : Option ℕ)
    (t : IoScheduler)
    → (let u = hand_over timeout v.hand (accepted v.local v.remote (ending o)) t in
        (rest u).queue ≡ u.queue ++ ys)
    → (finish timeout v rest (ending o, t)).queue
      ≡ t.queue
        ++ elim o [ none ↦ [] | some n ↦ served timeout n v ++ (if v.stopped then [] else ys) ]
unfolding finish comes_back
finish-queue timeout v rest ys none t h = sym (append-nil t.queue)
finish-queue timeout v rest ys (some n) t h =
    stop-queue v.stopped t.queue (served timeout n v) ys _ _
      (hand_over-served timeout n v v.local t) h

-- For a socket that was bound, where each wait of `accept` goes on and what happens during it leaves the queue as it
-- was: each visit in which a connection is kept, the first positive descriptor but those that are given just after an
-- EINTR, adds the function for a socket of this descriptor to the queue, connected and with the time of the server,
-- if the system tells its local address; the order is that of the connections. The loop ends with the visit
-- in which the server is stopped, or where no connection comes.
pub start_acceptr-queue :
    (timeout fd : ℕ) (k : Socket) (vs : List Visit) (s : IoScheduler)
    → k.sock ≡ some fd
    → CalmVisits fd timeout k vs s
    → (start_acceptr timeout k vs s).queue ≡ s.queue ++ handed timeout vs
unfolding start_acceptr accept finish
start_acceptr-queue timeout fd k [] s e h = sym (append-nil s.queue)
start_acceptr-queue timeout fd k (v ∷ vs) s e (calm, later) =
    let r = on_descriptor (λ j. accept_loop false j v.calls s) k.sock s in
    let ran : r ≡ transfer (some u64_max) fd on_read (kept false v.calls) s =
      ap (λ o. on_descriptor (λ j. accept_loop false j v.calls s) o s) e
      ∙ accept_loop-kept false fd v.calls s in
    let (ended, same) = transfer-Calm fd (kept false v.calls) s calm in
    let ends_so : r.0 ≡ ending (first_count (kept false v.calls)) = ap (λ x. x.0) ran ∙ ended in
    let rest =
      start_acceptr-queue timeout fd k vs
        (hand_over timeout v.hand (accepted v.local v.remote r.0) r.1) e later in
    ap (λ x. (finish timeout v (start_acceptr timeout k vs) (x, r.1)).queue) ends_so
    ∙ finish-queue timeout v (start_acceptr timeout k vs) (handed timeout vs)
        (first_count (kept false v.calls)) r.1
        (subst
          (λ x.
            let u = hand_over timeout v.hand (accepted v.local v.remote x) r.1 in
            (start_acceptr timeout k vs u).queue ≡ u.queue ++ handed timeout vs)
          ends_so rest)
    ∙ ap (λ q. q ++ handed timeout (v ∷ vs)) (ap (λ x. x.1.queue) ran ∙ same)
