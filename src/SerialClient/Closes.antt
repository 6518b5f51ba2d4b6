-- ===== src/SerialClient/Closes.antt =====
-- serial_client.py: every session closes the port that it opened, whatever happens on it.
use hass_dobiss_sx_evolution.Prelude.{
  Bool-cases, List, Result, [], arith, codes, inl, inr, ok, raised, ℕ, ◌+◌, ◌∷◌, ◌≡◌,
}
use hass_dobiss_sx_evolution.Protocol.Eeprom.{
  DateTime, build_clock_set_packets, config_response_size, eeprom_base_byte, eeprom_read_direction,
  eeprom_read_record_size, mood_name_eeprom_addr, mood_name_response_size, output_name_eeprom_addr,
  output_name_response_size,
}
use hass_dobiss_sx_evolution.Protocol.Responses.{parse_config_response}
use hass_dobiss_sx_evolution.SerialClient.{
  PortEffect, SerialPort, Session, and_then, clock_session, handshake, parsed, port_opened,
  read_config, read_names, read_port, serial_download_config, serial_download_mood_names,
  serial_download_output_names, serial_sync_clock, with_port, write_control_byte, write_each,
}
use hass_dobiss_sx_evolution.SerialClient.Steady.{
  IsSteady, Steady, and_then-IsSteady, closed_times, handshake-IsSteady, opened_times,
  read_names-IsSteady, read_port-IsSteady, write_control_byte-IsSteady, write_each-IsSteady,
}

-- The port has been closed as much more often than before as it has been opened.
abbrev pub Balanced : List PortEffect → List PortEffect → Type 0
Balanced before after =
    opened_times after + closed_times before ≡ closed_times after + opened_times before

with_port-Balanced :
    {A : Type 0}
    → (port : SerialPort) (body : Session A) (trace : List PortEffect) → IsSteady body
    → Balanced trace (with_port port body trace).1
with_port-Balanced port body trace h = elim (Bool-cases port.opens_port) [
  | inl e ↦ simp e (omega (arith, (h (port_opened ∷ trace)).0, (h (port_opened ∷ trace)).1))
  | inr e ↦ simp e (omega arith)
]

pub parsed-Steady :
    {A : Type 0}
    → (f : List ℕ → A) (before : List PortEffect) (r : Result (List ℕ) × List PortEffect)
    → Steady before r.1
    → Steady before (parsed f r).1
parsed-Steady f before (ok bytes, trace) s = s
parsed-Steady f before (raised e, trace) s = s

read_config-IsSteady : (port : SerialPort) → IsSteady (read_config port)
read_config-IsSteady port trace =
    and_then-IsSteady (λ v t. parsed parse_config_response (read_port port config_response_size t))
      trace
      (write_control_byte port eeprom_base_byte 0 0 eeprom_read_record_size eeprom_read_direction
        trace)
      (λ v t.
        parsed-Steady parse_config_response t (read_port port config_response_size t)
          (read_port-IsSteady port config_response_size t))
      (write_control_byte-IsSteady port eeprom_base_byte 0 0 eeprom_read_record_size
        eeprom_read_direction trace)

-- The blocking calls of the client.
pub data SerialCall : Type 0 where
  clock_call : DateTime → SerialCall
  config_call : SerialCall
  output_names_call : ℕ → ℕ → SerialCall
  mood_names_call : ℕ → SerialCall

abbrev pub after_serial_call : SerialPort → SerialCall → List PortEffect → List PortEffect
after_serial_call port (clock_call dt) trace = (serial_sync_clock port dt trace).1
after_serial_call port config_call trace = (serial_download_config port trace).1
after_serial_call port (output_names_call module_index count) trace =
    (serial_download_output_names port module_index count trace).1
after_serial_call port (mood_names_call count) trace =
    (serial_download_mood_names port count trace).1

clock_session-Balanced :
    (port : SerialPort) (r : Result (List ℕ × List ℕ)) (trace : List PortEffect)
    → Balanced trace (clock_session port r trace).1
clock_session-Balanced port (raised e) trace = omega arith
clock_session-Balanced port (ok (intro, output)) trace =
    with_port-Balanced port
      (λ t. and_then (λ u t'. write_each port output t') (handshake port (codes "K0") t)) trace
      (λ t.
        and_then-IsSteady (λ u t'. write_each port output t') t (handshake port (codes "K0") t)
          (λ u t'. write_each-IsSteady port output t') (handshake-IsSteady port (codes "K0") t))

names-Balanced :
    (port : SerialPort) (command : List ℕ) (address : ℕ → ℕ) (size count : ℕ)
    (trace : List PortEffect)
    → Balanced trace
        (with_port port
          (λ t.
            and_then
              (λ u t'. read_names port address size count 0 [] t')
              (handshake port command t))
          trace).1
names-Balanced port command address size count trace =
    with_port-Balanced port
      (λ t.
        and_then (λ u t'. read_names port address size count 0 [] t') (handshake port command t))
      trace
      (λ t.
        and_then-IsSteady (λ u t'. read_names port address size count 0 [] t') t
          (handshake port command t) (λ u t'. read_names-IsSteady port address size count 0 [] t')
          (handshake-IsSteady port command t))

-- Every call closes the port as often as it opens it, however the port answers and on every way out:
-- a refused port, a failed handshake, a read or a write that raises.
pub after_serial_call-Balanced :
    (port : SerialPort) (call : SerialCall) (trace : List PortEffect)
    → Balanced trace (after_serial_call port call trace)
unfolding serial_sync_clock serial_download_config serial_download_output_names
    serial_download_mood_names
after_serial_call-Balanced port (clock_call dt) trace =
    clock_session-Balanced port (build_clock_set_packets dt) trace
after_serial_call-Balanced port config_call trace =
    with_port-Balanced port
      (λ t. and_then (λ u t'. read_config port t') (handshake port (codes "a0") t)) trace
      (λ t.
        and_then-IsSteady (λ u t'. read_config port t') t (handshake port (codes "a0") t)
          (λ u t'. read_config-IsSteady port t') (handshake-IsSteady port (codes "a0") t))
after_serial_call-Balanced port (output_names_call module_index count) trace =
    names-Balanced port (codes "u1") (output_name_eeprom_addr module_index)
      output_name_response_size count trace
after_serial_call-Balanced port (mood_names_call count) trace =
    names-Balanced port (codes "n0") mood_name_eeprom_addr mood_name_response_size count trace
