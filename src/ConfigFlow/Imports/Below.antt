-- ===== src/ConfigFlow/Imports/Below.antt =====
-- config_flow.py: the indices of the names and the letters that the two clients give to an import.
use hass_dobiss_sx_evolution.Prelude.{
  All, Bool-cases, Dict, List, Option, Result, Text, [], arith, codes, inl, inr, int_eq, nat_eq,
  none, ok, pair_eq, put, raised, some, suc, text_eq, zero, ℕ, ◌+◌, ◌<◌, ◌==◌, ◌∷◌, ◌≡◌,
}
use hass_dobiss_sx_evolution.ConfigFlow.Imports.Keeps.{ConfigLetters}
use hass_dobiss_sx_evolution.ConfigFlow.Imports.Names.{IsBelow, NamesBelow}
use hass_dobiss_sx_evolution.ConfigFlow.Subentries.{validate_module}
use hass_dobiss_sx_evolution.ConfigFlow.Subentries.Unique.{IsLetter}
use hass_dobiss_sx_evolution.Protocol.Eeprom.{
  config_response_size, eeprom_base_byte, eeprom_read_direction, eeprom_read_record_size,
}
use hass_dobiss_sx_evolution.Protocol.Responses.{parse_config_response, parse_output_name}
use hass_dobiss_sx_evolution.Protocol.Responses.Config.{
  IsModuleLetter, parse_config_response_letters,
}
use hass_dobiss_sx_evolution.SerialClient.{
  PortEffect, SerialPort, Session, and_then, handshake, noted, parsed, port_opened, read_config,
  read_names, read_port, read_record, serial_download_config, with_port, write_control_byte,
}
use hass_dobiss_sx_evolution.TcpClient.{collect_names}

put-IsBelow :
    (n i : ℕ) (name : Text) (names : Dict ℕ Text)
    → i < n
    → All (IsBelow n) names
    → All (IsBelow n) (put i name names)
put-IsBelow n i name [] lt below = (lt, tt)
put-IsBelow n i name ((j, s) ∷ names) lt below = elim (Bool-cases (i == j)) [
  | inl e ↦ rw (e, All) below
  | inr e ↦ rw (e, All) (below.0, put-IsBelow n i name names lt below.1)
]

noted-IsBelow :
    (n i : ℕ) (o : Option Text) (names : Dict ℕ Text)
    → i < n
    → All (IsBelow n) names
    → All (IsBelow n) (noted i o names)
noted-IsBelow n i none names lt below = below
noted-IsBelow n i (some name) names lt below = put-IsBelow n i name names lt below

and_then-below :
    {A : Type 0}
    → (n : ℕ) (f : A → Session (Dict ℕ Text)) (r : Result A × List PortEffect)
    → ((a : A) (t : List PortEffect) → NamesBelow n (f a t).0)
    → NamesBelow n (and_then f r).0
and_then-below n f (ok a, trace) h = h a trace
and_then-below n f (raised e, trace) h = tt

pub collect_names-below :
    (n : ℕ) (download : ℕ → Session (Option Text)) (remaining index : ℕ) (names : Dict ℕ Text)
    (trace : List PortEffect)
    → index + remaining ≡ n
    → All (IsBelow n) names
    → NamesBelow n (collect_names download remaining index names trace).0
unfolding collect_names
collect_names-below n download zero index names trace e below = below
collect_names-below n download (suc remaining) index names trace e below =
    and_then-below n
      (λ name t. collect_names download remaining (index + 1) (noted index name names) t)
      (download index trace)
      (λ name t.
        collect_names-below n download remaining (index + 1) (noted index name names) t
          (omega arith) (noted-IsBelow n index name names (omega arith) below))

read_names-below :
    (n : ℕ) (port : SerialPort) (address : ℕ → ℕ) (size remaining index : ℕ) (names : Dict ℕ Text)
    (trace : List PortEffect)
    → index + remaining ≡ n
    → All (IsBelow n) names
    → NamesBelow n (read_names port address size remaining index names trace).0
unfolding read_names
read_names-below n port address size zero index names trace e below = below
read_names-below n port address size (suc remaining) index names trace e below =
    and_then-below n
      (λ bytes t.
        read_names port address size remaining (index + 1)
          (noted index (parse_output_name bytes) names) t)
      (read_record port (address index) size trace)
      (λ bytes t.
        read_names-below n port address size remaining (index + 1)
          (noted index (parse_output_name bytes) names) t (omega arith)
          (noted-IsBelow n index (parse_output_name bytes) names (omega arith) below))

with_port-below :
    (n : ℕ) (port : SerialPort) (body : Session (Dict ℕ Text)) (trace : List PortEffect)
    → ((t : List PortEffect) → NamesBelow n (body t).0)
    → NamesBelow n (with_port port body trace).0
with_port-below n port body trace h = elim (Bool-cases port.opens_port) [
  | inl e ↦ simp e (h (port_opened ∷ trace))
  | inr e ↦ simp e tt
]

pub session-below :
    (n : ℕ) (port : SerialPort) (command : List ℕ) (address : ℕ → ℕ) (size : ℕ)
    (trace : List PortEffect)
    → NamesBelow n
        (with_port port
          (λ t.
            and_then (λ u t'. read_names port address size n 0 [] t') (handshake port command t))
          trace).0
session-below n port command address size trace =
    with_port-below n port
      (λ t. and_then (λ u t'. read_names port address size n 0 [] t') (handshake port command t))
      trace
      (λ t.
        and_then-below n (λ u t'. read_names port address size n 0 [] t') (handshake port command t)
          (λ u t'. read_names-below n port address size n 0 [] t' (omega arith) tt))

IsLetter-IsModuleLetter : (letter : Text) → IsModuleLetter letter → IsLetter letter
unfolding validate_module
IsLetter-IsModuleLetter [] h = elim h [ ]
IsLetter-IsModuleLetter (c ∷ []) h = ground arith
IsLetter-IsModuleLetter (c ∷ d ∷ s) h = elim h [ ]

letters_of_slots :
    (modules : List (Text × ℕ))
    → All (λ (p : Text × ℕ). IsModuleLetter p.0) modules
    → All (λ (m : Text × ℕ). IsLetter m.0) modules
letters_of_slots [] h = tt
letters_of_slots (m ∷ modules) h = (IsLetter-IsModuleLetter m.0 h.0, letters_of_slots modules h.1)

pub parsed-letters :
    (r : Result (List ℕ) × List PortEffect) → ConfigLetters (parsed parse_config_response r).0
parsed-letters (ok bytes, trace) =
    letters_of_slots (parse_config_response bytes) (parse_config_response_letters bytes)
parsed-letters (raised e, trace) = tt

and_then-letters :
    {A : Type 0}
    → (f : A → Session (List (Text × ℕ))) (r : Result A × List PortEffect)
    → ((a : A) (t : List PortEffect) → ConfigLetters (f a t).0)
    → ConfigLetters (and_then f r).0
and_then-letters f (ok a, trace) h = h a trace
and_then-letters f (raised e, trace) h = tt

pub serial_config-letters :
    (port : SerialPort) (trace : List PortEffect)
    → ConfigLetters (serial_download_config port trace).0
unfolding serial_download_config
serial_config-letters port trace = elim (Bool-cases port.opens_port) [
  | inl e ↦ simp e (
      and_then-letters (λ u t. read_config port t)
        (handshake port (codes "a0") (port_opened ∷ trace))
        (λ u t.
          and_then-letters
            (λ v t'. parsed parse_config_response (read_port port config_response_size t'))
            (write_control_byte port eeprom_base_byte 0 0 eeprom_read_record_size
              eeprom_read_direction t)
            (λ v t'. parsed-letters (read_port port config_response_size t'))))
  | inr e ↦ simp e tt
]
