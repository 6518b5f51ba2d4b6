-- ===== src/Protocol/Frame/Laws.antt =====
-- protocol.py: the state frame is read back as it was written.
use hass_dobiss_sx_evolution.Prelude.{
  All, List, [], arith, ok, pos, raised, some, value_error, ℕ, ℤ, ◌%◌, ◌*◌, ◌+◌, ◌-◌, ◌/◌, ◌<◌, ◌∷◌,
  ◌≡◌, ◌≤ℤ◌, ◌≤◌,
}
use hass_dobiss_sx_evolution.Protocol.Frame.{
  build_state_frame, can_id_tx_state, parse_state_frame, to_bcd,
}

-- The number that a BCD byte stands for.
abbrev pub from_bcd : ℕ → ℕ
from_bcd b = b / 16 * 10 + b % 16

-- Of a number from 0 to 99 `to_bcd` gives one byte, with two decimal digits, that stands for it.
pub to_bcd-from_bcd :
    (n : ℕ)
    → n ≤ 99
    → (b : ℕ) × (to_bcd (pos n) ≡ ok b) × (from_bcd b ≡ n) × (b % 16 ≤ 9) × (b / 16 ≤ 9)
unfolding to_bcd
to_bcd-from_bcd n h = (n / 10 * 16 + n % 10, ground arith, ground arith, ground arith, ground arith)

-- Any other number raises `ValueError`.
pub to_bcd_out_of_range : (v : ℤ) → ¬ ((pos 0 ≤ℤ v) × (v ≤ℤ pos 99)) → to_bcd v ≡ raised value_error
unfolding to_bcd
to_bcd_out_of_range v h = ground arith

pub build_state_frame_lem :
    (letter n state : ℕ)
    → letter < 128
    → n ≤ 99
    → state ≤ 255
    → build_state_frame (letter ∷ []) (pos (n + 1)) (pos state)
      ≡ ok (some (can_id_tx_state, 0 ∷ letter ∷ (n / 10 * 16 + n % 10) ∷ state ∷ []))
unfolding build_state_frame
build_state_frame_lem letter n state hl hn hs = ground arith

-- A state write for an ASCII module letter, an output from 1 to 100 and a state of one byte is
-- built, each byte of its payload is below 256, and the parser reads the payload back as the same
-- module, output and state.
pub parse-build_state_frame :
    (letter output state : ℕ)
    → letter < 128
    → 1 ≤ output
    → output ≤ 100
    → state ≤ 255
    → (payload : List ℕ) × (build_state_frame (letter ∷ []) (pos output) (pos state)
        ≡ ok (some (can_id_tx_state, payload)))
      × All (λ b. b < 256) payload
      × (parse_state_frame payload
          ≡ some (record { module_letter = letter ∷ []; output = pos output; state = state }))
unfolding build_state_frame parse_state_frame
parse-build_state_frame letter output state hl h1 h100 hs = (
  0 ∷ letter ∷ ((output - 1) / 10 * 16 + (output - 1) % 10) ∷ state ∷ [],
  ground arith,
  ground arith,
  ground arith,
)

-- A write with an output outside 1 to 100 raises `ValueError` for an ASCII module letter, whatever
-- the state is.
pub build_state_frame_bad_output :
    (letter : ℕ) (output state : ℤ)
    → letter < 128
    → ¬ ((pos 1 ≤ℤ output) × (output ≤ℤ pos 100))
    → build_state_frame (letter ∷ []) output state ≡ raised value_error
unfolding build_state_frame
build_state_frame_bad_output letter output state hl h = ground arith
