-- ===== src/Controller/ReadLoop/Recovers.antt =====
-- controller.py: the read loop recovers.
use hass_dobiss_sx_evolution.Prelude.{
  List, Result, [], arith, cancelled_error, false, ok, raised, raised-ne-ok, refl, some, sym, true,
  ℕ, ◌++◌, ◌+◌, ◌∙◌, ◌∷◌, ◌≡◌, ◌≢◌,
}
use hass_dobiss_sx_evolution.Controller.Commands.{send_frame}
use hass_dobiss_sx_evolution.Controller.Commands.Shutters.{up}
use hass_dobiss_sx_evolution.Controller.Lifecycle.{
  BusJob, cancelled_in_close, cancelled_in_stop, cancelled_refused, cancelled_running,
  cancelled_with, clear_repair_issue, close_bus, made, open_bus, refused, setup_notifier,
  teardown_notifier,
}
use hass_dobiss_sx_evolution.Controller.ReadLoop.{
  Loop, Turn, after_attempt, alive, ended, loop_turn, read_frames, read_loop, reconnect,
  reconnect_backoff_initial_s,
}
use hass_dobiss_sx_evolution.Controller.ReadLoop.Attempt.{
  Attempted, closed_notifier, interrupted, no_bus, no_dump, reconnect-Attempted, through,
}
use hass_dobiss_sx_evolution.Controller.State.{
  Bus, Controller, Effect, bus_opened, notifier_started,
}
use hass_dobiss_sx_evolution.Protocol.Frame.{dump_request_frame}
use mathlib.Core.Path.{subst}

-- A job that ends without a cancellation.
abbrev pub IsUncancelled : BusJob → Type 0
IsUncancelled (made bus) = Unit
IsUncancelled refused = Unit
IsUncancelled (cancelled_with orphan) = ⊥
IsUncancelled cancelled_refused = ⊥
IsUncancelled cancelled_running = ⊥
IsUncancelled cancelled_in_stop = ⊥
IsUncancelled cancelled_in_close = ⊥

abbrev pub AllUncancelled : List Turn → Type 0
AllUncancelled [] = Unit
AllUncancelled (turn ∷ turns) = IsUncancelled turn.job × AllUncancelled turns

-- The loop is alive with the shortest backoff, reads the bus, and no repair issue stands.
abbrev pub IsUp : Bus → Loop → Type 0
IsUp bus (alive backoff c) =
    (backoff ≡ reconnect_backoff_initial_s)
    × (c.bus ≡ some bus)
    × (c.notifier ≡ true)
    × (c.reader ≡ true)
    × (c.repair_issue_active ≡ false)
IsUp bus (ended c) = ⊥

dump_accepted :
    (bus : Bus) (d : Controller)
    → d.notifier ≡ false
    → ((trace : List Effect) → bus.rejects trace dump_request_frame ≡ false)
    → (send_frame dump_request_frame
        (setup_notifier (record d { bus = some bus; trace = bus_opened ∷ d.trace }))).0
      ≡ ok tt
unfolding send_frame setup_notifier teardown_notifier
dump_accepted bus d quiet accepts =
    ground (arith, accepts (notifier_started ∷ bus_opened ∷ d.trace))

reconnect-accepted :
    (bus : Bus) (c : Controller)
    → ((trace : List Effect) → bus.rejects trace dump_request_frame ≡ false)
    → (reconnect (made bus) c).0 ≡ ok tt
unfolding reconnect open_bus
reconnect-accepted bus c accepts =
    dump_accepted bus (close_bus (teardown_notifier c)) (closed_notifier c) accepts

cleared :
    (bus : Bus) (c : Controller)
    → c.bus ≡ some bus
    → c.notifier ≡ true
    → c.reader ≡ true
    → IsUp bus (
        alive reconnect_backoff_initial_s
          (clear_repair_issue (record c { reconnect_count = c.reconnect_count + 1 })))
unfolding clear_repair_issue
cleared bus c b n r = ground arith

after_attempt-IsUp :
    (bus : Bus) (backoff : ℕ) (r : Result (Unit {0}) × Controller)
    → Attempted (made bus) r
    → r.0 ≡ ok tt
    → IsUp bus (after_attempt backoff r)
after_attempt-IsUp bus backoff (ok u, c) (through b before job o there n rd t) h =
    cleared bus c (there ∙ same (sym job)) n rd
  where
    same : made b ≡ made bus → some b ≡ some bus
    same e = cc
after_attempt-IsUp bus backoff (ok u, c) (no_bus e o there n) h = absurd (raised-ne-ok (sym o))
after_attempt-IsUp bus backoff (ok u, c) (interrupted o n) h = absurd (raised-ne-ok (sym o))
after_attempt-IsUp bus backoff (ok u, c) (no_dump b job o there n) h = absurd (raised-ne-ok (sym o))
after_attempt-IsUp bus backoff (raised e, c) a h = absurd (raised-ne-ok h)

dump_uncancelled :
    (bus : Bus) (d : Controller)
    → d.notifier ≡ false
    → (send_frame dump_request_frame
        (setup_notifier (record d { bus = some bus; trace = bus_opened ∷ d.trace }))).0
      ≢ raised cancelled_error
unfolding send_frame setup_notifier teardown_notifier
dump_uncancelled bus d quiet e = ground arith

uncancelled_attempt :
    (job : BusJob) (c : Controller)
    → IsUncancelled job
    → (reconnect job c).0 ≢ raised cancelled_error
unfolding reconnect open_bus
uncancelled_attempt (made bus) c h e =
    dump_uncancelled bus (close_bus (teardown_notifier c)) (closed_notifier c) e
uncancelled_attempt refused c h e = cc
uncancelled_attempt (cancelled_with orphan) c h e = elim h [ ]
uncancelled_attempt cancelled_refused c h e = elim h [ ]
uncancelled_attempt cancelled_running c h e = elim h [ ]
uncancelled_attempt cancelled_in_stop c h e = elim h [ ]
uncancelled_attempt cancelled_in_close c h e = elim h [ ]

abbrev pub IsAlive : Loop → Type 0
IsAlive (alive backoff c) = Unit
IsAlive (ended c) = ⊥

attempt-IsAlive :
    (backoff : ℕ) (r : Result (Unit {0}) × Controller)
    → r.0 ≢ raised cancelled_error
    → IsAlive (after_attempt backoff r)
attempt-IsAlive backoff (ok u, c) ne = tt
attempt-IsAlive backoff (raised cancelled_error, c) ne = ne refl
attempt-IsAlive backoff (raised _, c) ne = tt

turn-IsAlive :
    (turn : Turn) (backoff : ℕ) (c : Controller)
    → IsUncancelled turn.job
    → IsAlive (loop_turn turn backoff c)
unfolding loop_turn
turn-IsAlive turn backoff c h =
    attempt-IsAlive backoff (reconnect turn.job (read_frames turn.events c).1)
      (uncancelled_attempt turn.job (read_frames turn.events c).1 h)

turn-IsUp :
    (bus : Bus) (turn : Turn) (backoff : ℕ) (c : Controller)
    → turn.job ≡ made bus
    → ((trace : List Effect) → bus.rejects trace dump_request_frame ≡ false)
    → IsUp bus (loop_turn turn backoff c)
unfolding loop_turn
turn-IsUp bus turn backoff c job accepts =
    let c' : Controller = (read_frames turn.events c).1 in
    subst (λ j. IsUp bus (after_attempt backoff (reconnect j c'))) (sym job)
      (after_attempt-IsUp bus backoff (reconnect (made bus) c') (reconnect-Attempted (made bus) c')
        (reconnect-accepted bus c' accepts))

-- What a turn leaves is passed on.
next_turns : List Turn → Loop → Loop
next_turns turns (alive backoff c) = read_loop turns backoff c
next_turns turns (ended c) = ended c

next_turns-IsUp :
    (bus : Bus) (turns : List Turn) (l : Loop)
    → IsAlive l
    → ((backoff : ℕ) (c : Controller) → IsUp bus (read_loop turns backoff c))
    → IsUp bus (next_turns turns l)
unfolding next_turns
next_turns-IsUp bus turns (alive backoff c) h up = up backoff c
next_turns-IsUp bus turns (ended c) h up = elim h [ ]

read_loop-turns :
    (turn : Turn) (turns : List Turn) (backoff : ℕ) (c : Controller)
    → read_loop (turn ∷ turns) backoff c ≡ next_turns turns (loop_turn turn backoff c)
unfolding read_loop next_turns
read_loop-turns turn turns backoff c = by_turn (loop_turn turn backoff c)
  where
    by_turn :
        (l : Loop)
        → elim l as (λ _. Loop) [
          | ended c' ↦ ended c'
          | alive backoff' c' ↦ read_loop turns backoff' c'
        ]
          ≡ next_turns turns l
    by_turn (alive backoff' c') = refl
    by_turn (ended c') = refl

-- However many turns have failed before, and whatever was read in them, a turn whose job makes a bus
-- that takes the dump request leaves the loop alive with the shortest backoff, reading that bus, and
-- with no repair issue. No job is cancelled.
pub read_loop-IsUp :
    (turns : List Turn) (turn : Turn) (bus : Bus) (backoff : ℕ) (c : Controller)
    → AllUncancelled turns
    → turn.job ≡ made bus
    → ((trace : List Effect) → bus.rejects trace dump_request_frame ≡ false)
    → IsUp bus (read_loop (turns ++ turn ∷ []) backoff c)
unfolding next_turns read_loop
read_loop-IsUp [] turn bus backoff c h job accepts =
    rw (read_loop-turns turn [] backoff c)
      (last (loop_turn turn backoff c) (turn-IsUp bus turn backoff c job accepts))
  where
    last : (l : Loop) → IsUp bus l → IsUp bus (next_turns [] l)
    last (alive backoff' c') up = up
    last (ended c') up = up
read_loop-IsUp (t ∷ turns) turn bus backoff c h job accepts =
    rw (read_loop-turns t (turns ++ turn ∷ []) backoff c) (
      next_turns-IsUp bus (turns ++ turn ∷ []) (loop_turn t backoff c)
        (turn-IsAlive t backoff c h.0)
        (λ backoff' c'. read_loop-IsUp turns turn bus backoff' c' h.1 job accepts))
