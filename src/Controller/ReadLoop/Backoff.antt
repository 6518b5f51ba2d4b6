-- ===== src/Controller/ReadLoop/Backoff.antt =====
-- controller.py: the backoff doubles up to its ceiling, and the repair issue is there from there on.
use hass_dobiss_sx_evolution.Prelude.{
  Bool, List, Result, [], arith, cancelled_error, false, if◌then◌else◌, leb, min, ok, raised, refl,
  suc, true, zero, ℕ, ◌*◌, ◌+◌, ◌^◌, ◌∙◌, ◌∷◌, ◌≡◌, ◌≤◌,
}
use hass_dobiss_sx_evolution.Controller.Lifecycle.{clear_repair_issue, raise_repair_issue}
use hass_dobiss_sx_evolution.Controller.ReadLoop.{
  Loop, Turn, after_attempt, after_failure, alive, ended, loop_turn, read_frames, read_loop,
  reconnect, reconnect_backoff_initial_s,
}
use hass_dobiss_sx_evolution.Controller.ReadLoop.Same.{
  Same, Same-trans, read_frames-Same, reconnect-Same,
}
use hass_dobiss_sx_evolution.Controller.State.{Controller}
use native.Mathlib.Nat.{pow-suc}

-- The backoff after a number of failed attempts in a row.
abbrev pub backoff_after : ℕ → ℕ
backoff_after n = min (2 ^ n) 60

two_pow-ge : (k : ℕ) → 64 ≤ 2 ^ suc (suc (suc (suc (suc (suc k)))))
two_pow-ge zero = omega arith
two_pow-ge (suc k) = omega (arith, pow-suc 2 (suc (suc (suc (suc (suc (suc k)))))), two_pow-ge k)

-- The ceiling is reached with the sixth failure.
ceiling : (n : ℕ) → leb 60 (backoff_after n) ≡ leb 6 n
ceiling zero = refl
ceiling (suc zero) = refl
ceiling (suc (suc zero)) = refl
ceiling (suc (suc (suc zero))) = refl
ceiling (suc (suc (suc (suc zero)))) = refl
ceiling (suc (suc (suc (suc (suc zero))))) = refl
ceiling (suc (suc (suc (suc (suc (suc k)))))) = ground (arith, two_pow-ge k)

backoff_after-suc : (n : ℕ) → min (backoff_after n * 2) 60 ≡ backoff_after (suc n)
backoff_after-suc n = omega (arith, pow-suc 2 n)

-- Whether the attempt of a turn gets through.
abbrev pub is_ok : Result (Unit {0}) → Bool
is_ok (ok _) = true
is_ok (raised _) = false

abbrev pub got_through : Turn → Controller → Bool
got_through turn c = is_ok (reconnect turn.job (read_frames turn.events c).1).0

-- After `n` failures in a row.
abbrev IsAt : ℕ → ℕ → Controller → Type 0
IsAt n backoff c = (backoff ≡ backoff_after n) × (c.repair_issue_active ≡ leb 6 n)

abbrev LoopAt : ℕ → ℕ → Loop → Type 0
LoopAt n count (alive backoff c) = IsAt n backoff c × (c.reconnect_count ≡ count)
LoopAt n count (ended c) = Unit

after_failure-LoopAt :
    (n backoff : ℕ) (c : Controller)
    → IsAt n backoff c
    → LoopAt (suc n) c.reconnect_count (after_failure backoff c)
unfolding raise_repair_issue
after_failure-LoopAt n backoff c h = ground (arith, ceiling (suc n), backoff_after-suc n)

after_attempt-LoopAt :
    (n backoff count : ℕ) (r : Result (Unit {0}) × Controller)
    → IsAt n backoff r.1
    → r.1.reconnect_count ≡ count
    → LoopAt
        (if is_ok r.0 then 0 else suc n)
        (if is_ok r.0 then count + 1 else count)
        (after_attempt backoff r)
unfolding clear_repair_issue
after_attempt-LoopAt n backoff count (ok _, c) h e = ground arith
after_attempt-LoopAt n backoff count (raised cancelled_error, c) h e = tt
after_attempt-LoopAt n backoff count (raised _, c) h e =
    ((after_failure-LoopAt n backoff c h).0, (after_failure-LoopAt n backoff c h).1 ∙ e)

-- The turns that got through, and the failures in a row at the end, after `n` before the first turn.
abbrev pub successes : List Turn → ℕ → Controller → ℕ
successes [] backoff c = 0
successes (turn ∷ turns) backoff c = elim (loop_turn turn backoff c) [
  | ended _ ↦ 0
  | alive backoff' c' ↦ successes turns backoff' c' + (if got_through turn c then 1 else 0)
]

abbrev pub failures_in_row : ℕ → List Turn → ℕ → Controller → ℕ
failures_in_row n [] backoff c = n
failures_in_row n (turn ∷ turns) backoff c = elim (loop_turn turn backoff c) [
  | ended _ ↦ n
  | alive backoff' c' ↦ failures_in_row (if got_through turn c then 0 else suc n) turns backoff' c'
]

loop_turn-LoopAt :
    (n backoff : ℕ) (turn : Turn) (c : Controller)
    → IsAt n backoff c
    → LoopAt
        (if got_through turn c then 0 else suc n)
        (if got_through turn c then c.reconnect_count + 1 else c.reconnect_count)
        (loop_turn turn backoff c)
unfolding loop_turn
loop_turn-LoopAt n backoff turn c h =
    let read = read_frames turn.events c in
    let same : Same c (reconnect turn.job read.1).1 =
      Same-trans (read_frames-Same turn.events c) (reconnect-Same turn.job read.1) in
    after_attempt-LoopAt n backoff c.reconnect_count (reconnect turn.job read.1)
      (h.0, same.issue ∙ h.1) same.count

read_loop-LoopAt :
    (turns : List Turn) (n backoff : ℕ) (c : Controller)
    → IsAt n backoff c
    → LoopAt
        (failures_in_row n turns backoff c)
        (c.reconnect_count + successes turns backoff c)
        (read_loop turns backoff c)
unfolding read_loop
read_loop-LoopAt [] n backoff c h = (h, omega arith)
read_loop-LoopAt (turn ∷ turns) n backoff c h =
    go (loop_turn turn backoff c) (loop_turn-LoopAt n backoff turn c h) (read_loop-LoopAt turns)
  where
    n' : ℕ
    n' = if got_through turn c then 0 else suc n

    go :
        (l : Loop)
        → LoopAt n' (if got_through turn c then c.reconnect_count + 1 else c.reconnect_count) l
        → ((m b : ℕ) (d : Controller)
            → IsAt m b d
            → LoopAt
                (failures_in_row m turns b d)
                (d.reconnect_count + successes turns b d)
                (read_loop turns b d))
        → LoopAt
            (elim l [ ended _ ↦ n | alive b d ↦ failures_in_row n' turns b d ])
            (c.reconnect_count + elim l [
              | ended _ ↦ 0
              | alive b d ↦ successes turns b d + (if got_through turn c then 1 else 0)
            ])
            (elim l [ ended d ↦ ended d | alive b d ↦ read_loop turns b d ])
    go (ended d) at_turn rest = tt
    go (alive b d) at_turn rest =
        let e : d.reconnect_count + successes turns b d
            ≡ c.reconnect_count + (successes turns b d + (if got_through turn c then 1 else 0)) =
          counted (got_through turn c) at_turn.1 in
        rw e at (rest n' b d at_turn.0)
      where
        counted :
            (g : Bool)
            → d.reconnect_count ≡ (if g then c.reconnect_count + 1 else c.reconnect_count)
            → d.reconnect_count + successes turns b d
              ≡ c.reconnect_count + (successes turns b d + (if g then 1 else 0))
        counted true q = omega arith
        counted false q = omega arith

-- The read loop from a fresh backoff of 1 s and no repair issue, over any turns, each with any events
-- of the reader and any outcome of the reconnect. While it is alive: after n failures in a row the
-- next backoff is 2 ^ n seconds, at most 60; the repair issue is active exactly if n is 6 or more, so
-- it is raised when the backoff reaches its ceiling and cleared by the first success; and the count
-- of reconnects has grown by one for each attempt that got through.
pub read_loop-backoff :
    (turns : List Turn) (c c' : Controller) (backoff : ℕ)
    → c.repair_issue_active ≡ false
    → read_loop turns reconnect_backoff_initial_s c ≡ alive backoff c'
    → let n = failures_in_row 0 turns reconnect_backoff_initial_s c in
      (backoff ≡ min (2 ^ n) 60)
      × (c'.repair_issue_active ≡ leb 6 n)
      × (c'.reconnect_count ≡ c.reconnect_count + successes turns reconnect_backoff_initial_s c)
read_loop-backoff turns c c' backoff quiet e =
    let (at_end, count) = rw e at (read_loop-LoopAt turns 0 1 c (refl, quiet)) in
    (at_end.0, at_end.1, count)
