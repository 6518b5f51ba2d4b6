-- ===== src/Protocol/Eeprom/Laws.antt =====
-- protocol.py: the EEPROM records do not overlap, the intros name them, and the clock is read back.
use hass_dobiss_sx_evolution.Prelude.{
  List, [], arith, length, ok, pos, refl, replicate, ℕ, ◌%◌, ◌*◌, ◌+◌, ◌/◌, ◌<◌, ◌∷◌, ◌≡◌, ◌≢◌, ◌≤◌,
  ◌⊎◌,
}
use hass_dobiss_sx_evolution.Protocol.Eeprom.{
  DateTime, build_clock_set_packets, build_mood_name_intro, build_output_name_intro,
  mood_name_eeprom_addr, output_name_eeprom_addr,
}
use hass_dobiss_sx_evolution.Protocol.Frame.{to_bcd}
use hass_dobiss_sx_evolution.Protocol.Frame.Laws.{from_bcd}

-- Two records of 32 bytes have no byte in common.
abbrev pub Apart : ℕ → ℕ → Type 0
Apart a b = (a + 32 ≤ b) ⊎ (b + 32 ≤ a)

-- For module slots 0 to 17 and outputs 0 to 11, two different output records have no byte in
-- common; each lies below every mood record, and both kinds end below 65536, for moods 0 to 99.
pub eeprom_records-Apart :
    (m o m' o' mood : ℕ)
    → m < 18
    → o < 12
    → m' < 18
    → o' < 12
    → mood < 100
    → ((m ≢ m') ⊎ (o ≢ o'))
    → Apart (output_name_eeprom_addr m o) (output_name_eeprom_addr m' o')
      × (output_name_eeprom_addr m o + 32 ≤ mood_name_eeprom_addr mood)
      × (mood_name_eeprom_addr mood + 32 ≤ 65536)
unfolding output_name_eeprom_addr mood_name_eeprom_addr
eeprom_records-Apart m o m' o' mood hm ho hm' ho' hmood differ =
    (ground arith, omega arith, omega arith)

-- A download intro: 16 bytes, with the command's two letters and the address in bytes 4 and 5.
abbrev pub IsIntro : ℕ → ℕ → ℕ → List ℕ → Type 0
IsIntro c d addr (e ∷ c' ∷ d' ∷ base ∷ hi ∷ lo ∷ rest) =
    (e ≡ 0xED)
    × (c' ≡ c)
    × (d' ≡ d)
    × (base ≡ 0xA0)
    × (hi * 256 + lo ≡ addr)
    × (hi < 256)
    × (lo < 256)
    × (rest ≡ replicate 10 0)
IsIntro _ _ _ _ = ⊥

-- For module slots 0 to 17 and outputs 0 to 11 the intro of an output name is built, its bytes are
-- in range, and the address that its bytes 4 and 5 make is the record's.
pub build_output_name_intro_lem :
    (m o : ℕ)
    → m < 18
    → o < 12
    → (intro : List ℕ) × (build_output_name_intro m o ≡ ok intro)
      × IsIntro b'u' b'1' (output_name_eeprom_addr m o) intro
unfolding build_output_name_intro
build_output_name_intro_lem m o hm ho =
    let addr = 0x8000 + m * 384 + o * 32 in
    (
      0xED ∷ 0x75 ∷ 0x31 ∷ 0xA0 ∷ (addr / 256) ∷ (addr % 256) ∷ replicate 10 0,
      ground arith,
      (refl, refl, refl, refl, omega arith, omega arith, omega arith, refl),
    )

-- For moods 0 to 99 the intro of a mood name is built, and names the mood's record.
pub build_mood_name_intro_lem :
    (mood : ℕ)
    → mood < 100
    → (intro : List ℕ) × (build_mood_name_intro mood ≡ ok intro)
      × IsIntro b'n' b'0' (mood_name_eeprom_addr mood) intro
unfolding build_mood_name_intro
build_mood_name_intro_lem mood h =
    let addr = 0xC000 + mood * 32 in
    (
      0xED ∷ 0x6E ∷ 0x30 ∷ 0xA0 ∷ (addr / 256) ∷ (addr % 256) ∷ replicate 10 0,
      ground arith,
      (refl, refl, refl, refl, omega arith, omega arith, omega arith, refl),
    )

-- The ranges of a `datetime`.
pub record IsDateTime (dt : DateTime) : Type 0 where
  pub second : dt.second ≤ 59
  pub minute : dt.minute ≤ 59
  pub hour : dt.hour ≤ 23
  pub weekday : (1 ≤ dt.isoweekday) × (dt.isoweekday ≤ 7)
  pub day : (1 ≤ dt.day) × (dt.day ≤ 31)
  pub month : (1 ≤ dt.month) × (dt.month ≤ 12)

-- What the Max200 reads out of the seven clock bytes: Sunday is day 1 of its week.
abbrev pub ReadsClock : DateTime → List ℕ → Type 0
ReadsClock dt (s ∷ mi ∷ h ∷ w ∷ d ∷ mo ∷ y ∷ []) =
    (from_bcd s ≡ dt.second)
    × (from_bcd mi ≡ dt.minute)
    × (from_bcd h ≡ dt.hour)
    × (from_bcd w ≡ dt.isoweekday % 7 + 1)
    × (from_bcd d ≡ dt.day)
    × (from_bcd mo ≡ dt.month)
    × (from_bcd y ≡ dt.year % 100)
ReadsClock _ _ = ⊥

abbrev bcd_byte : ℕ → ℕ
bcd_byte n = n / 10 * 16 + n % 10

to_bcd_byte : (n : ℕ) → n ≤ 99 → to_bcd (pos n) ≡ ok (bcd_byte n)
unfolding to_bcd
to_bcd_byte n h = ground arith

abbrev clock_bytes : DateTime → List ℕ
clock_bytes dt =
    bcd_byte dt.second
    ∷ bcd_byte dt.minute
    ∷ bcd_byte dt.hour
    ∷ bcd_byte (dt.isoweekday % 7 + 1)
    ∷ bcd_byte dt.day
    ∷ bcd_byte dt.month
    ∷ bcd_byte (dt.year % 100)
    ∷ []

-- For every date the clock packets are built: a 16-byte intro, and seven bytes that read back as
-- the date's fields in BCD, with the year's last two digits and a week that starts on Sunday.
pub build_clock_set_packets_lem :
    (dt : DateTime)
    → IsDateTime dt
    → (intro output : List ℕ) × (build_clock_set_packets dt ≡ ok (intro, output))
      × (length intro ≡ 16)
      × ReadsClock dt output
unfolding build_clock_set_packets
build_clock_set_packets_lem dt v = (
  0xED ∷ 0x4B ∷ 0x30 ∷ replicate 13 0,
  clock_bytes dt,
  simp (
    to_bcd_byte dt.second (omega arith),
    to_bcd_byte dt.minute (omega arith),
    to_bcd_byte dt.hour (omega arith),
    to_bcd_byte (dt.isoweekday % 7 + 1) (omega arith),
    to_bcd_byte dt.day (omega arith),
    to_bcd_byte dt.month (omega arith),
    to_bcd_byte (dt.year % 100) (omega arith),
  ),
  refl,
  (omega arith, omega arith, omega arith, omega arith, omega arith, omega arith, omega arith),
)
