-- ===== src/Diagnostics/Shows.antt =====
-- diagnostics.py: every state is shown under a name of its own, and every address is redacted.
use hass_dobiss_sx_evolution.Prelude.{
  ==_iff, ==_refl, Bool, Bool-cases, Dict, List, Option, Text, [], ap, arith, codes, contains,
  false, get, get-put, inl, inr, int_eq, nat_eq, negsuc, none, not, pair_eq, pos, put, refl, some,
  str_int, str_nat, str_nat_injective, sym, text_eq, true, ℕ, ◌==◌, ◌||◌, ◌∙◌, ◌∷◌, ◌≡◌,
}
use hass_dobiss_sx_evolution.Controller.Connection.{ConfigData, ConnectionConfig, socketcand, usb}
use hass_dobiss_sx_evolution.Controller.State.{OutputKey}
use hass_dobiss_sx_evolution.Coordinator.Links.{serial_client_device, tcp_client_host}
use hass_dobiss_sx_evolution.Diagnostics.{
  Info, connection_diagnostics, connection_info, insert_key, key_leb, redact_fields, serialise_onto,
  serialise_states, sorted_keys, state_name, with_link,
}

-- A key with a letter of one character and a number that is not negative.
abbrev pub IsNamed : OutputKey → Type 0
IsNamed (c ∷ [], pos n) = Unit
IsNamed ([], n) = ⊥
IsNamed (c ∷ [], negsuc n) = ⊥
IsNamed (c ∷ d ∷ s, n) = ⊥

-- No key twice.
abbrev pub IsDict : Dict OutputKey ℕ → Type 0
IsDict [] = Unit
IsDict ((key, value) ∷ states) = (get key states ≡ none) × IsDict states

abbrev pub AllNamed : Dict OutputKey ℕ → Type 0
AllNamed [] = Unit
AllNamed ((key, value) ∷ states) = IsNamed key × AllNamed states

tail_eq :
    (c d : ℕ) (m n : ℕ)
    → state_name (c ∷ [], pos m) ≡ state_name (d ∷ [], pos n)
    → (c ≡ d) × (str_nat m ≡ str_nat n)
unfolding str_int
tail_eq c d m n e = ground arith

state_name_injective :
    (k j : OutputKey) → IsNamed k → IsNamed j → state_name k ≡ state_name j → k ≡ j
state_name_injective ([], _) j hk hj e = elim hk [ ]
state_name_injective (c ∷ [], negsuc _) j hk hj e = elim hk [ ]
state_name_injective (c ∷ _ ∷ _, _) j hk hj e = elim hk [ ]
state_name_injective (c ∷ [], pos m) ([], _) hk hj e = elim hj [ ]
state_name_injective (c ∷ [], pos m) (d ∷ [], negsuc _) hk hj e = elim hj [ ]
state_name_injective (c ∷ [], pos m) (d ∷ _ ∷ _, _) hk hj e = elim hj [ ]
state_name_injective (c ∷ [], pos m) (d ∷ [], pos n) hk hj e =
    let parts = tail_eq c d m n e in λ i. (parts.0 i ∷ [], pos (str_nat_injective m n parts.1 i))

same_name : (k j : OutputKey) → IsNamed k → IsNamed j → (state_name k == state_name j) ≡ (k == j)
same_name k j hk hj = elim (Bool-cases (k == j)) [
  | inl e ↦ rw e (rw ((==_iff k j).0 e) (==_refl (state_name j)))
  | inr e ↦ elim (Bool-cases (state_name k == state_name j)) [
    | inl e' ↦ absurd (
        differ
          (==_of_eq k j
            (state_name_injective k j hk hj ((==_iff (state_name k) (state_name j)).0 e')))
          e)
    | inr e' ↦ e' ∙ sym e
  ]
]
  where
    ==_of_eq : (a b : OutputKey) → a ≡ b → (a == b) ≡ true
    ==_of_eq a b p = (==_iff a b).1 p

    differ : {b : Bool} → b ≡ true → b ≡ false → ⊥
    differ p q = cc

-- The value of a key, or what the names so far hold.
abbrev or_named : Option ℕ → Option ℕ → Option ℕ
or_named none named = named
or_named (some value) named = some value

get-serialise_onto :
    (k : OutputKey) (states : Dict OutputKey ℕ) (named : Dict Text ℕ)
    → IsNamed k
    → AllNamed states
    → IsDict states
    → get (state_name k) (serialise_onto states named)
      ≡ or_named (get k states) (get (state_name k) named)
unfolding serialise_onto
get-serialise_onto k [] named hk hs d = refl
get-serialise_onto k ((j, value) ∷ states) named hk hs d =
    get-serialise_onto k states (put (state_name j) value named) hk hs.1 d.1
    ∙ rw (get-put (state_name k) (state_name j) value named, same_name k j hk hs.0)
        (elim (Bool-cases (k == j)) [
          | inl e ↦ rw e (ap (λ o. or_named o (some value)) (absent e))
          | inr e ↦ rw e refl
        ])
  where
    absent : (k == j) ≡ true → get k states ≡ none
    absent e = rw ((==_iff k j).0 e) d.0

-- Where the states have each key once, letters of one character and numbers that are not negative,
-- the diagnostics show for every such key the value that the states have for it, or nothing where
-- they have none.
pub get-serialise_states :
    (k : OutputKey) (states : Dict OutputKey ℕ)
    → IsNamed k
    → AllNamed states
    → IsDict states
    → get (state_name k) (serialise_states states) ≡ get k states
unfolding serialise_states
get-serialise_states k states hk hs d =
    get-serialise_onto k states [] hk hs d ∙ or_none_named (get k states)
  where
    or_none_named : (o : Option ℕ) → or_named o none ≡ o
    or_none_named none = refl
    or_none_named (some value) = refl

-- The keys that stay readable.
abbrev pub shown_keys : List Text
shown_keys = codes "type" ∷ codes "port" ∷ codes "baudrate" ∷ codes "can_interface" ∷ []

-- A key is redacted, or is one that stays readable.
abbrev pub Redacts : List Text → Dict Text Info → Type 0
Redacts fields [] = Unit
Redacts fields ((key, value) ∷ info) =
    (contains key fields ≡ not (contains key shown_keys)) × Redacts fields info

with_links-Redacts :
    (connection : ConnectionConfig) (host device : Option Text)
    → let shown = with_link (codes "max200_host") host (
        with_link
          (codes "master_device")
          device
          (connection_info connection, redact_fields connection)) in
      Redacts shown.1 shown.0
with_links-Redacts (socketcand h p i) none none = (refl, (refl, (refl, (refl, tt))))
with_links-Redacts (socketcand h p i) none (some d) = (refl, (refl, (refl, (refl, (refl, tt)))))
with_links-Redacts (socketcand h p i) (some t) none = (refl, (refl, (refl, (refl, (refl, tt)))))
with_links-Redacts (socketcand h p i) (some t) (some d) =
    (refl, (refl, (refl, (refl, (refl, (refl, tt))))))
with_links-Redacts (usb v b i) none none = (refl, (refl, (refl, (refl, tt))))
with_links-Redacts (usb v b i) none (some d) = (refl, (refl, (refl, (refl, (refl, tt)))))
with_links-Redacts (usb v b i) (some t) none = (refl, (refl, (refl, (refl, (refl, tt)))))
with_links-Redacts (usb v b i) (some t) (some d) =
    (refl, (refl, (refl, (refl, (refl, (refl, tt))))))

-- Of the connection's details the diagnostics leave readable exactly the type, the port, the baud
-- rate and the CAN interface: the host or device, and the Max200's serial port and host where there
-- are any, are among the redacted fields.
pub connection_diagnostics-Redacts :
    (connection : ConnectionConfig) (entry_data : ConfigData)
    → Redacts
        (connection_diagnostics connection entry_data).1
        (connection_diagnostics connection entry_data).0
unfolding connection_diagnostics
connection_diagnostics-Redacts connection entry_data =
    with_links-Redacts connection (tcp_client_host entry_data) (serial_client_device entry_data)

contains-insert_key :
    (k key : OutputKey) (keys : List OutputKey)
    → contains k (insert_key key keys) ≡ (k == key || contains k keys)
unfolding insert_key
contains-insert_key k key [] = refl
contains-insert_key k key (j ∷ keys) = elim (Bool-cases (key_leb key j)) [
  | inl e ↦ rw e refl
  | inr e ↦ rw (e, contains) (rw (contains-insert_key k key keys) (swap_or (k == j) (k == key) _))
]
  where
    swap_or : (a b c : Bool) → (a || (b || c)) ≡ (b || (a || c))
    swap_or a b c = ground arith

-- Sorting keeps the keys.
pub contains-sorted_keys :
    (k : OutputKey) (keys : List OutputKey) → contains k (sorted_keys keys) ≡ contains k keys
unfolding sorted_keys
contains-sorted_keys k [] = refl
contains-sorted_keys k (key ∷ keys) =
    contains-insert_key k key (sorted_keys keys)
    ∙ ap (λ b. k == key || b) (contains-sorted_keys k keys)
