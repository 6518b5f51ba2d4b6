-- ===== src/SerialClient/Steady.antt =====
-- serial_client.py: what happens on an open port neither opens nor closes it.
use hass_dobiss_sx_evolution.Prelude.{
  Bool-cases, Dict, List, Result, Text, [], inl, inr, ok, raised, refl, serial_error, suc, zero, ℕ,
  ◌%◌, ◌+◌, ◌/◌, ◌∙◌, ◌∷◌, ◌≡◌,
}
use hass_dobiss_sx_evolution.Protocol.Eeprom.{
  eeprom_base_byte, eeprom_read_direction, eeprom_read_record_size,
}
use hass_dobiss_sx_evolution.Protocol.Responses.{parse_output_name}
use hass_dobiss_sx_evolution.SerialClient.{
  PortEffect, SerialPort, Session, after_echo, all_bytes, and_then, got, got_bytes, handshake,
  handshake_attempt, handshake_loop, input_reset, is_echo, noted, port_closed, port_opened,
  read_names, read_port, read_record, serial_handshake_retries, write_bytes, write_control_byte,
  write_each, write_port, wrote,
}

-- How often the port has been opened, less how often it has been closed, as two counts.
abbrev pub opened_times : List PortEffect → ℕ
opened_times [] = 0
opened_times (port_opened ∷ trace) = suc (opened_times trace)
opened_times (port_closed ∷ trace) = opened_times trace
opened_times (input_reset ∷ trace) = opened_times trace
opened_times (got bytes ∷ trace) = opened_times trace
opened_times (wrote bytes ∷ trace) = opened_times trace

abbrev pub closed_times : List PortEffect → ℕ
closed_times [] = 0
closed_times (port_opened ∷ trace) = closed_times trace
closed_times (port_closed ∷ trace) = suc (closed_times trace)
closed_times (input_reset ∷ trace) = closed_times trace
closed_times (got bytes ∷ trace) = closed_times trace
closed_times (wrote bytes ∷ trace) = closed_times trace

-- The port is opened and closed equally often before and after, or not at all.
abbrev pub Steady : List PortEffect → List PortEffect → Type 0
Steady before after =
    (opened_times after ≡ opened_times before) × (closed_times after ≡ closed_times before)

-- A body that neither opens nor closes.
abbrev pub IsSteady : {A : Type 0} → Session A → Type 0
IsSteady {A = A} body = (trace : List PortEffect) → Steady trace (body trace).1

pub and_then-IsSteady :
    {A B : Type 0}
    → (f : A → Session B) (before : List PortEffect) (r : Result A × List PortEffect)
    → ((a : A) → IsSteady (f a))
    → Steady before r.1
    → Steady before (and_then f r).1
and_then-IsSteady f before (ok a, trace) h s = ((h a trace).0 ∙ s.0, (h a trace).1 ∙ s.1)
and_then-IsSteady f before (raised e, trace) h s = s

pub got_bytes-Steady :
    (trace : List PortEffect) (r : Result (List ℕ)) → Steady trace (got_bytes trace r).1
got_bytes-Steady trace (ok bytes) = (refl, refl)
got_bytes-Steady trace (raised e) = (refl, refl)

pub read_port-IsSteady : (port : SerialPort) (n : ℕ) → IsSteady (read_port port n)
read_port-IsSteady port n trace = got_bytes-Steady trace (port.reads trace n)

write_port-IsSteady : (port : SerialPort) (bytes : List ℕ) → IsSteady (write_port port bytes)
write_port-IsSteady port bytes trace = elim (Bool-cases (port.write_raises trace bytes)) [
  | inl e ↦ rw e (refl, refl)
  | inr e ↦ rw e (refl, refl)
]

write_bytes-IsSteady : (port : SerialPort) (numbers : List ℕ) → IsSteady (write_bytes port numbers)
write_bytes-IsSteady port numbers trace = elim (Bool-cases (all_bytes numbers)) [
  | inl e ↦ rw e (write_port-IsSteady port numbers trace)
  | inr e ↦ rw e (refl, refl)
]

handshake_attempt-IsSteady :
    (port : SerialPort) (command : List ℕ) → IsSteady (handshake_attempt port command)
handshake_attempt-IsSteady port command trace =
    and_then-IsSteady
      (λ ready t. and_then (λ u t'. read_port port 1 t') (write_port port command t)) trace
      (read_port port 1 (input_reset ∷ trace))
      (λ ready t.
        and_then-IsSteady (λ u t'. read_port port 1 t') t (write_port port command t)
          (λ u t'. read_port-IsSteady port 1 t') (write_port-IsSteady port command t))
      (read_port-IsSteady port 1 (input_reset ∷ trace))

after_echo-Steady :
    (command : List ℕ) (retry : Session (Unit {0})) (before : List PortEffect)
    (r : Result (List ℕ) × List PortEffect)
    → IsSteady retry
    → Steady before r.1
    → Steady before (after_echo command retry r).1
after_echo-Steady command retry before (ok echo, trace) h s =
    elim (Bool-cases (is_echo command echo)) [
      | inl e ↦ rw e s
      | inr e ↦ rw e ((h trace).0 ∙ s.0, (h trace).1 ∙ s.1)
    ]
after_echo-Steady command retry before (raised serial_error, trace) h s =
    ((h trace).0 ∙ s.0, (h trace).1 ∙ s.1)
after_echo-Steady command retry before (raised _, trace) h s = s

handshake_loop-IsSteady :
    (n : ℕ) (port : SerialPort) (command : List ℕ) → IsSteady (handshake_loop n port command)
unfolding handshake_loop
handshake_loop-IsSteady zero port command trace = (refl, refl)
handshake_loop-IsSteady (suc n) port command trace =
    after_echo-Steady command (handshake_loop n port command) trace
      (handshake_attempt port command trace) (handshake_loop-IsSteady n port command)
      (handshake_attempt-IsSteady port command trace)

pub handshake-IsSteady : (port : SerialPort) (command : List ℕ) → IsSteady (handshake port command)
unfolding handshake
handshake-IsSteady port command = handshake_loop-IsSteady serial_handshake_retries port command

pub write_control_byte-IsSteady :
    (port : SerialPort) (base hi lo size direction : ℕ)
    → IsSteady (write_control_byte port base hi lo size direction)
unfolding write_control_byte
write_control_byte-IsSteady port base hi lo size direction trace =
    and_then-IsSteady (λ u t. write_bytes port (hi ∷ lo ∷ size ∷ direction ∷ []) t) trace
      (write_bytes port (base ∷ []) trace)
      (λ u t. write_bytes-IsSteady port (hi ∷ lo ∷ size ∷ direction ∷ []) t)
      (write_bytes-IsSteady port (base ∷ []) trace)

pub write_each-IsSteady : (port : SerialPort) (bytes : List ℕ) → IsSteady (write_each port bytes)
unfolding write_each
write_each-IsSteady port [] trace = (refl, refl)
write_each-IsSteady port (b ∷ bytes) trace =
    and_then-IsSteady (λ u t. write_each port bytes t) trace (write_port port (b ∷ []) trace)
      (λ u t. write_each-IsSteady port bytes t) (write_port-IsSteady port (b ∷ []) trace)

read_record-IsSteady : (port : SerialPort) (addr size : ℕ) → IsSteady (read_record port addr size)
read_record-IsSteady port addr size trace =
    and_then-IsSteady (λ u t. read_port port size t) trace
      (write_control_byte port eeprom_base_byte (addr / 256) (addr % 256) eeprom_read_record_size
        eeprom_read_direction trace)
      (λ u t. read_port-IsSteady port size t)
      (write_control_byte-IsSteady port eeprom_base_byte (addr / 256) (addr % 256)
        eeprom_read_record_size eeprom_read_direction trace)

pub read_names-IsSteady :
    (port : SerialPort) (address : ℕ → ℕ) (size remaining index : ℕ) (names : Dict ℕ Text)
    → IsSteady (read_names port address size remaining index names)
unfolding read_names
read_names-IsSteady port address size zero index names trace = (refl, refl)
read_names-IsSteady port address size (suc remaining) index names trace =
    and_then-IsSteady
      (λ bytes t.
        read_names port address size remaining (index + 1)
          (noted index (parse_output_name bytes) names) t)
      trace (read_record port (address index) size trace)
      (λ bytes t.
        read_names-IsSteady port address size remaining (index + 1)
          (noted index (parse_output_name bytes) names) t)
      (read_record-IsSteady port (address index) size trace)
