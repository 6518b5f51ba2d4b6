-- ===== src/SerialClient/Names.antt =====
-- serial_client.py: the names that a download gives, against the records in the Max200's memory.
use hass_dobiss_sx_evolution.Prelude.{
  ==_iff, Dict, List, Option, Result, Text, [], ap, arith, false, get, get-put, if◌then◌else◌,
  int_eq, ltb, nat_eq, none, ok, ok-injective, pair_eq, raised, raised-ne-ok, refl, some, suc,
  text_eq, true, zero, ℕ, ◌%◌, ◌*◌, ◌+◌, ◌/◌, ◌<◌, ◌==◌, ◌∙◌, ◌∷◌, ◌≡◌,
}
use hass_dobiss_sx_evolution.Protocol.Eeprom.{
  eeprom_base_byte, eeprom_read_direction, eeprom_read_record_size, mood_name_eeprom_addr,
  output_name_eeprom_addr, output_name_response_size,
}
use hass_dobiss_sx_evolution.Protocol.Responses.{parse_output_name}
use hass_dobiss_sx_evolution.SerialClient.{
  PortEffect, SerialPort, Session, all_bytes, and_then, got, handshake, handshake_loop, input_reset,
  noted, parsed, port_opened, read_names, read_record, serial_download_mood_names,
  serial_download_output_names, with_port, write_control_byte, wrote,
}
use mathlib.Core.Path.{subst}

-- What a dict of names holds of the records below n, by the name of each.
abbrev pub Holds : (ℕ → Option Text) → ℕ → Dict ℕ Text → Type 0
Holds record_name n names = (i : ℕ) → get i names ≡ (if ltb i n then record_name i else none)

-- The download returns the name of every record below `count` that has one, and no other.
abbrev pub Delivers : (ℕ → Option Text) → ℕ → Result (Dict ℕ Text) → Type 0
Delivers record_name count (ok names) = Holds record_name count names
Delivers record_name count (raised e) = ⊥

noted-get :
    (i n : ℕ) (o : Option Text) (names : Dict ℕ Text)
    → get n names ≡ none
    → get i (noted n o names) ≡ (if i == n then o else get i names)
noted-get i n none names h = ground (arith, ==_iff i n, h)
noted-get i n (some name) names h = get-put i n name names

pub noted-Holds :
    (record_name : ℕ → Option Text) (n : ℕ) (names : Dict ℕ Text)
    → Holds record_name n names
    → Holds record_name (n + 1) (noted n (record_name n) names)
noted-Holds record_name n names h i =
    rw (noted-get i n (record_name n) names (h n ∙ ground arith)) (ground (arith, h i, ==_iff i n))

pub and_then-ok :
    {A B : Type 0}
    → (f : A → Session B) (a : A) (r : Result A × List PortEffect) → r.0 ≡ ok a
    → and_then f r ≡ f a r.1
and_then-ok f a (ok b, trace) h = ap (λ c. f c trace) (ok-injective h)
and_then-ok f a (raised e, trace) h = absurd (raised-ne-ok h)

pub parsed-ok :
    {A : Type 0}
    → (f : List ℕ → A) (bytes : List ℕ) (r : Result (List ℕ) × List PortEffect) → r.0 ≡ ok bytes
    → (parsed f r).0 ≡ ok (f bytes)
parsed-ok f bytes (ok b, trace) h = ap (λ c. ok (f c)) (ok-injective h)
parsed-ok f bytes (raised e, trace) h = absurd (raised-ne-ok h)

-- What the Max200 does on its serial port: the port opens and takes what is written, the first
-- character of a command comes back, and a control byte is answered by the record at its address.
pub record AnswersSerial (memory : ℕ → List ℕ) (port : SerialPort) : Type 0 where
  pub opens : port.opens_port ≡ true
  pub takes : (trace : List PortEffect) (bytes : List ℕ) → port.write_raises trace bytes ≡ false
  pub ready : List PortEffect → List ℕ
  pub is_ready : (trace : List PortEffect) → port.reads (input_reset ∷ trace) 1 ≡ ok (ready trace)
  pub echoes :
      (c d : ℕ) (trace : List PortEffect) → port.reads (wrote (c ∷ d ∷ []) ∷ trace) 1 ≡ ok (c ∷ [])
  pub answers :
      (hi lo : ℕ) (trace : List PortEffect)
      → port.reads
          (wrote (hi ∷ lo ∷ eeprom_read_record_size ∷ eeprom_read_direction ∷ [])
            ∷ wrote (eeprom_base_byte ∷ [])
            ∷ trace)
          output_name_response_size
        ≡ ok (memory (hi * 256 + lo))

control_bytes :
    (addr : ℕ)
    → addr < 65536
    → all_bytes (addr / 256 ∷ addr % 256 ∷ eeprom_read_record_size ∷ eeprom_read_direction ∷ [])
      ≡ true
control_bytes addr lt = ground arith

with_port_opened :
    {A : Type 0}
    → (port : SerialPort) (body : Session A) (trace : List PortEffect) → port.opens_port ≡ true
    → (with_port port body trace).0 ≡ (body (port_opened ∷ trace)).0
with_port_opened port body trace e = simp e refl

module _ (memory : ℕ → List ℕ) (port : SerialPort) (h : AnswersSerial memory port) where
  handshake_ok : (c d : ℕ) (trace : List PortEffect) → (handshake port (c ∷ d ∷ []) trace).0 ≡ ok tt
  unfolding handshake handshake_loop
  handshake_ok c d trace =
      rw
        (
          h.is_ready trace,
          h.takes (got (h.ready trace) ∷ input_reset ∷ trace) (c ∷ d ∷ []),
          h.echoes c d (got (h.ready trace) ∷ input_reset ∷ trace),
        )
        (ground arith)

  read_record_ok :
      (addr : ℕ) (trace : List PortEffect)
      → addr < 65536
      → (read_record port addr output_name_response_size trace).0 ≡ ok (memory addr)
  unfolding write_control_byte
  read_record_ok addr trace lt =
      rw
        (
          h.takes trace (eeprom_base_byte ∷ []),
          control_bytes addr lt,
          h.takes (wrote (eeprom_base_byte ∷ []) ∷ trace)
              (addr / 256 ∷ addr % 256 ∷ eeprom_read_record_size ∷ eeprom_read_direction ∷ []),
          h.answers (addr / 256) (addr % 256) trace,
        )
        (ap (λ a. ok (memory a)) (omega arith))

  -- The loop over the records from `index` on, of which the addresses have two bytes.
  read_names-Delivers :
      (address : ℕ → ℕ) (count remaining index : ℕ) (names : Dict ℕ Text) (trace : List PortEffect)
      → ((i : ℕ) → i < count → address i < 65536)
      → index + remaining ≡ count
      → Holds (λ i. parse_output_name (memory (address i))) index names
      → Delivers
          (λ i. parse_output_name (memory (address i)))
          count
          (read_names port address output_name_response_size remaining index names trace).0
  unfolding read_names
  read_names-Delivers address count zero index names trace fits e holds =
      subst (λ n. Holds (λ i. parse_output_name (memory (address i))) n names) (omega arith) holds
  read_names-Delivers address count (suc remaining) index names trace fits e holds =
      rw
        (and_then-ok
          (λ bytes t.
            read_names port address output_name_response_size remaining (index + 1)
              (noted index (parse_output_name bytes) names) t)
          (memory (address index))
          (read_record port (address index) output_name_response_size trace)
          (read_record_ok (address index) trace (fits index (omega arith))))
        (read_names-Delivers address count remaining (index + 1)
          (noted index (parse_output_name (memory (address index))) names)
          (read_record port (address index) output_name_response_size trace).1 fits (omega arith)
          (noted-Holds (λ i. parse_output_name (memory (address i))) index names holds))

  -- A session of a download of names.
  session-Delivers :
      (c d : ℕ) (address : ℕ → ℕ) (count : ℕ) (trace : List PortEffect)
      → ((i : ℕ) → i < count → address i < 65536)
      → Delivers
          (λ i. parse_output_name (memory (address i)))
          count
          (with_port port
            (λ t.
              and_then
                (λ u t'. read_names port address output_name_response_size count 0 [] t')
                (handshake port (c ∷ d ∷ []) t))
            trace).0
  session-Delivers c d address count trace fits =
      rw
        (
          with_port_opened port
              (λ t.
                and_then (λ u t'. read_names port address output_name_response_size count 0 [] t')
                  (handshake port (c ∷ d ∷ []) t))
              trace h.opens,
          and_then-ok (λ u t'. read_names port address output_name_response_size count 0 [] t') tt
              (handshake port (c ∷ d ∷ []) (port_opened ∷ trace))
              (handshake_ok c d (port_opened ∷ trace)),
        )
        (read_names-Delivers address count count 0 []
          (handshake port (c ∷ d ∷ []) (port_opened ∷ trace)).1 fits (omega arith)
          (λ i. ground arith))

  pub serial_output_names-Delivers :
      (module_index count : ℕ) (trace : List PortEffect)
      → ((i : ℕ) → i < count → output_name_eeprom_addr module_index i < 65536)
      → Delivers
          (λ i. parse_output_name (memory (output_name_eeprom_addr module_index i)))
          count
          (serial_download_output_names port module_index count trace).0
  unfolding serial_download_output_names
  serial_output_names-Delivers module_index count trace fits =
      session-Delivers b'u' b'1' (output_name_eeprom_addr module_index) count trace fits

  pub serial_mood_names-Delivers :
      (count : ℕ) (trace : List PortEffect)
      → ((i : ℕ) → i < count → mood_name_eeprom_addr i < 65536)
      → Delivers
          (λ i. parse_output_name (memory (mood_name_eeprom_addr i)))
          count
          (serial_download_mood_names port count trace).0
  unfolding serial_download_mood_names
  serial_mood_names-Delivers count trace fits =
      session-Delivers b'n' b'0' mood_name_eeprom_addr count trace fits
