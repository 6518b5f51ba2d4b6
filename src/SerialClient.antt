-- ===== src/SerialClient.antt =====
-- serial_client.py: the sessions with the Max200 over a serial port. What the port does is a
-- parameter; what happens on it is kept in the trace, the latest first, without the sleeps.
pub mod Steady
pub mod Closes
pub mod Names
use hass_dobiss_sx_evolution.Prelude.{
  Bool, Dict, List, Option, Result, Text, [], codes, connection_error, false, if◌then◌else◌, int_eq,
  ltb, nat_eq, nat_eqb, none, not, ok, pair_eq, put, raised, serial_error, some, suc, text_eq, true,
  value_error, zero, ℕ, ◌%◌, ◌&&◌, ◌+◌, ◌/◌, ◌∷◌,
}
use hass_dobiss_sx_evolution.Protocol.Eeprom.{
  DateTime, build_clock_set_packets, config_response_size, eeprom_base_byte, eeprom_read_direction,
  eeprom_read_record_size, mood_name_eeprom_addr, mood_name_response_size, output_name_eeprom_addr,
  output_name_response_size,
}
use hass_dobiss_sx_evolution.Protocol.Responses.{parse_config_response, parse_output_name}

pub data PortEffect : Type 0 where
  port_opened port_closed input_reset : PortEffect
  got wrote : List ℕ → PortEffect

-- A serial port: whether it opens, what a read of n bytes gives, and whether a write raises, after
-- what has happened so far.
pub record SerialPort : Type 0 where
  pub opens_port : Bool
  pub reads : List PortEffect → ℕ → Result (List ℕ)
  pub write_raises : List PortEffect → List ℕ → Bool

abbrev pub Session : Type 0 → Type 0
Session A = List PortEffect → Result A × List PortEffect

abbrev pub and_then :
    {A B : Type 0} → (A → Session B) → Result A × List PortEffect → Result B × List PortEffect
and_then f (ok a, trace) = f a trace
and_then f (raised e, trace) = (raised e, trace)

abbrev pub got_bytes : List PortEffect → Result (List ℕ) → Result (List ℕ) × List PortEffect
got_bytes trace (ok bytes) = (ok bytes, got bytes ∷ trace)
got_bytes trace (raised e) = (raised e, trace)

-- port.read(n)
abbrev pub read_port : SerialPort → ℕ → Session (List ℕ)
read_port port n trace = got_bytes trace (port.reads trace n)

-- port.write(bytes)
abbrev pub write_port : SerialPort → List ℕ → Session (Unit {0})
write_port port bytes trace =
    if port.write_raises trace bytes
    then (raised serial_error, trace)
    else (ok tt, wrote bytes ∷ trace)

abbrev pub serial_handshake_retries : ℕ
serial_handshake_retries = 3

-- One attempt of `_handshake`: the echo.
abbrev pub handshake_attempt : SerialPort → List ℕ → Session (List ℕ)
handshake_attempt port command trace =
    and_then (λ ready t. and_then (λ u t'. read_port port 1 t') (write_port port command t))
      (read_port port 1 (input_reset ∷ trace))

abbrev pub is_echo : List ℕ → List ℕ → Bool
is_echo (c ∷ command) (e ∷ echo) = nat_eqb e c
is_echo command echo = false

-- An attempt ends the loop by the echo of the first character, or by an exception that is no
-- SerialException.
abbrev pub after_echo :
    List ℕ
    → Session (Unit {0})
    → Result (List ℕ) × List PortEffect
    → Result (Unit {0}) × List PortEffect
after_echo command retry (ok echo, trace) =
    if is_echo command echo then (ok tt, trace) else retry trace
after_echo command retry (raised serial_error, trace) = retry trace
after_echo command retry (raised e, trace) = (raised e, trace)

unfoldable pub handshake_loop : ℕ → SerialPort → List ℕ → Session (Unit {0})
handshake_loop zero port command trace = (raised connection_error, trace)
handshake_loop (suc n) port command trace =
    after_echo command (handshake_loop n port command) (handshake_attempt port command trace)

-- `_handshake`
unfoldable pub handshake : SerialPort → List ℕ → Session (Unit {0})
unfolding handshake_loop
handshake port command = handshake_loop serial_handshake_retries port command

abbrev pub all_bytes : List ℕ → Bool
all_bytes [] = true
all_bytes (n ∷ numbers) = ltb n 256 && all_bytes numbers

-- port.write(bytes(numbers))
abbrev pub write_bytes : SerialPort → List ℕ → Session (Unit {0})
write_bytes port numbers trace =
    if all_bytes numbers then write_port port numbers trace else (raised value_error, trace)

-- `_write_control_byte`
unfoldable pub write_control_byte : SerialPort → ℕ → ℕ → ℕ → ℕ → ℕ → Session (Unit {0})
write_control_byte port base hi lo size direction trace =
    and_then (λ u t. write_bytes port (hi ∷ lo ∷ size ∷ direction ∷ []) t)
      (write_bytes port (base ∷ []) trace)

-- port = self._open(); try: … finally: port.close()
abbrev pub close_port : {A : Type 0} → Result A × List PortEffect → Result A × List PortEffect
close_port (r, trace) = (r, port_closed ∷ trace)

abbrev pub with_port : {A : Type 0} → SerialPort → Session A → Session A
with_port port body trace =
    if not port.opens_port
    then (raised connection_error, trace)
    else close_port (body (port_opened ∷ trace))

-- for b in output: port.write(bytes([b]))
unfoldable pub write_each : SerialPort → List ℕ → Session (Unit {0})
write_each port [] trace = (ok tt, trace)
write_each port (b ∷ bytes) trace =
    and_then (λ u t. write_each port bytes t) (write_port port (b ∷ []) trace)

abbrev pub clock_session : SerialPort → Result (List ℕ × List ℕ) → Session (Unit {0})
clock_session port (raised e) trace = (raised e, trace)
clock_session port (ok (intro, output)) trace =
    with_port port
      (λ t. and_then (λ u t'. write_each port output t') (handshake port (codes "K0") t)) trace

-- `sync_clock`
unfoldable pub serial_sync_clock : SerialPort → DateTime → Session (Unit {0})
unfolding write_each handshake build_clock_set_packets
serial_sync_clock port dt trace = clock_session port (build_clock_set_packets dt) trace

abbrev pub parsed :
    {A : Type 0} → (List ℕ → A) → Result (List ℕ) × List PortEffect → Result A × List PortEffect
parsed f (ok bytes, trace) = (ok (f bytes), trace)
parsed f (raised e, trace) = (raised e, trace)

-- What `download_config` does after the handshake.
abbrev pub read_config : SerialPort → Session (List (Text × ℕ))
read_config port trace =
    and_then (λ v t. parsed parse_config_response (read_port port config_response_size t))
      (write_control_byte port eeprom_base_byte 0 0 eeprom_read_record_size eeprom_read_direction
        trace)

-- `download_config`
unfoldable pub serial_download_config : SerialPort → Session (List (Text × ℕ))
unfolding handshake write_control_byte parse_config_response
serial_download_config port =
    with_port port
      (λ trace. and_then (λ u t. read_config port t) (handshake port (codes "a0") trace))

abbrev pub noted : ℕ → Option Text → Dict ℕ Text → Dict ℕ Text
noted index none names = names
noted index (some name) names = put index name names

-- One turn of the loops of `download_module_output_names` and `download_mood_names`: the bytes of
-- the record at an address.
abbrev pub read_record : SerialPort → ℕ → ℕ → Session (List ℕ)
read_record port addr size trace =
    and_then (λ u t. read_port port size t)
      (write_control_byte port eeprom_base_byte (addr / 256) (addr % 256) eeprom_read_record_size
        eeprom_read_direction trace)

-- The loop over the indices that are left, from `index` on.
unfoldable pub read_names : SerialPort → (ℕ → ℕ) → ℕ → ℕ → ℕ → Dict ℕ Text → Session (Dict ℕ Text)
unfolding write_control_byte parse_output_name
read_names port address size zero index names trace = (ok names, trace)
read_names port address size (suc remaining) index names trace =
    and_then
      (λ bytes t.
        read_names port address size remaining (index + 1)
          (noted index (parse_output_name bytes) names) t)
      (read_record port (address index) size trace)

-- `download_module_output_names`
unfoldable pub serial_download_output_names : SerialPort → ℕ → ℕ → Session (Dict ℕ Text)
unfolding read_names handshake output_name_eeprom_addr
serial_download_output_names port module_index count = with_port port (λ trace.
    and_then
      (λ u t.
        read_names port (output_name_eeprom_addr module_index) output_name_response_size count 0 []
          t)
      (handshake port (codes "u1") trace))

-- `download_mood_names`
unfoldable pub serial_download_mood_names : SerialPort → ℕ → Session (Dict ℕ Text)
unfolding read_names handshake mood_name_eeprom_addr
serial_download_mood_names port count = with_port port (λ trace.
    and_then (λ u t. read_names port mood_name_eeprom_addr mood_name_response_size count 0 [] t)
      (handshake port (codes "n0") trace))
