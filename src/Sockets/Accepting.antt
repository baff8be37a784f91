-- ===== src/Sockets/Accepting.antt =====
-- The loop of `Socket::accept` (ttw/socket.cc).
use ttw.Prelude.{ℕ, zero, suc, ◌≡◌, refl, Bool, true, false, some, List, [], ◌∷◌}
use ttw.Prelude.Word.{u64_max}
use ttw.Io.Events.{on_read}
use ttw.Io.{IoScheduler}
use ttw.Sockets.{
  Call, gave, interrupted, would_block, failed, wait_for, after_wait, transfer, accept_loop,
}

-- The calls without the connections that are given just after an EINTR.
abbrev pub kept : Bool → List Call → List Call
kept retried [] = []
kept false (gave (suc n) ∷ cs) = gave (suc n) ∷ kept false cs
kept true (gave (suc n) ∷ cs) = kept false cs
kept retried (gave zero ∷ cs) = gave zero ∷ kept false cs
kept retried (interrupted ∷ cs) = interrupted ∷ kept true cs
kept retried (failed e ∷ cs) = failed e ∷ kept false cs
kept retried (would_block w ∷ cs) = would_block w ∷ kept false cs

-- The loop of `accept` is that of the other operations, without a timer, on the calls from which each connection that is given just
-- after an EINTR is left out: such a connection is lost.
pub accept_loop-kept :
    (retried : Bool) (fd : ℕ) (cs : List Call) (s : IoScheduler)
    → accept_loop retried fd cs s ≡ transfer (some u64_max) fd on_read (kept retried cs) s
unfolding accept_loop transfer
accept_loop-kept retried fd [] s = refl
accept_loop-kept false fd (gave (suc n) ∷ cs) s = refl
accept_loop-kept true fd (gave (suc n) ∷ cs) s = accept_loop-kept false fd cs s
accept_loop-kept retried fd (gave zero ∷ cs) s = accept_loop-kept false fd cs s
accept_loop-kept retried fd (interrupted ∷ cs) s = accept_loop-kept true fd cs s
accept_loop-kept retried fd (failed e ∷ cs) s = accept_loop-kept false fd cs s
accept_loop-kept retried fd (would_block w ∷ cs) s =
    λ i. after_wait (λ t. accept_loop-kept false fd cs t i) (wait_for w (some u64_max) fd on_read s)
