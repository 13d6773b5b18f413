-- ===== src/Node/Config.antt =====
-- rust-core/src/node.rs: `parse_interfaces_json`, and what `start` makes of its mode. serde_json is the
-- parameter `Interfaces`.
use lxmf_react_native_rust.Prelude.{
  ℕ, suc, ◌≤◌, max, ◌≡◌, ◌⊎◌, inl, inr, ◌&&◌, ◌||◌, Option, none, some, List, [], ◌∷◌, arith, Bytes,
  ltb, leb, ◌==◌, if◌then◌else◌, ==_iff, Bool-cases, length,
}

pub record Interfaces : Type 1 where
  pub Value : Type 0
  pub from_str : Bytes → Option (List Value)
  -- `v["host"].as_str()` and `v["port"].as_u64()`
  pub host_of : Value → Option Bytes
  pub port_of : Value → Option ℕ

pub data StartError : Type 0 where
  bad_json : StartError
  bad_host : (index : ℕ) → StartError
  bad_port : (index : ℕ) → StartError
  unsupported_mode : (mode : ℕ) → StartError
  no_interface : StartError

-- Which `start_*` runs, with its interfaces and its announce interval in milliseconds.
pub data StartPlan : Type 0 where
  start_reticulum : (interfaces : List (Bytes × ℕ)) (announce_interval_ms : ℕ) → StartPlan
  start_ble : StartPlan
  start_full : (interfaces : List (Bytes × ℕ)) (announce_interval_ms : ℕ) → StartPlan

module _ (json : Interfaces) where
  open json use {Value}

  unfoldable pub good_host : Option Bytes → Option Bytes
  good_host none = none
  good_host (some []) = none
  good_host (some (c ∷ cs)) = some (c ∷ cs)

  unfoldable pub good_port : Option ℕ → Option ℕ
  good_port none = none
  good_port (some p) = if ltb 0 p && leb p 65535 then some p else none

  unfoldable pub one_interface : ℕ → Option Bytes → Option ℕ → StartError ⊎ (Bytes × ℕ)
  one_interface i none port = inl (bad_host i)
  one_interface i (some host) none = inl (bad_port i)
  one_interface i (some host) (some port) = inr (host, port)

  unfoldable pub add_interface :
      StartError ⊎ (Bytes × ℕ) → StartError ⊎ List (Bytes × ℕ) → StartError ⊎ List (Bytes × ℕ)
  add_interface (inl e) rest = inl e
  add_interface (inr x) (inl e) = inl e
  add_interface (inr x) (inr xs) = inr (x ∷ xs)

  unfoldable pub interfaces_from : ℕ → List Value → StartError ⊎ List (Bytes × ℕ)
  unfolding good_host good_port one_interface add_interface
  interfaces_from i [] = inr []
  interfaces_from i (v ∷ vs) =
      add_interface (one_interface i (good_host (json.host_of v)) (good_port (json.port_of v)))
        (interfaces_from (suc i) vs)

  unfoldable pub interfaces_in : Option (List Value) → StartError ⊎ List (Bytes × ℕ)
  unfolding interfaces_from
  interfaces_in none = inl bad_json
  interfaces_in (some arr) = interfaces_from 0 arr

  unfoldable pub parse_interfaces_json : Bytes → StartError ⊎ List (Bytes × ℕ)
  unfolding interfaces_in
  parse_interfaces_json text = interfaces_in (json.from_str text)

  -- A start with TCP needs an interface.
  unfoldable pub with_interfaces :
      (List (Bytes × ℕ) → StartPlan) → StartError ⊎ List (Bytes × ℕ) → StartError ⊎ StartPlan
  with_interfaces plan (inl e) = inl e
  with_interfaces plan (inr []) = inl no_interface
  with_interfaces plan (inr (x ∷ xs)) = inr (plan (x ∷ xs))

  -- At least 60 s where BLE takes part.
  unfoldable pub clamp_interval : ℕ → ℕ → ℕ
  clamp_interval mode interval = if mode == 0 || mode == 4 then max interval 60000 else interval

  unfoldable pub start : ℕ → ℕ → Bytes → StartError ⊎ StartPlan
  unfolding with_interfaces clamp_interval parse_interfaces_json
  start mode announce_interval_ms interfaces_json =
      let interval = clamp_interval mode announce_interval_ms in
      if mode == 3
      then with_interfaces (λ xs. start_reticulum xs interval)
          (parse_interfaces_json interfaces_json)
      else (if mode == 0
          then inr start_ble
          else (if mode == 4
              then with_interfaces (λ xs. start_full xs interval)
                  (parse_interfaces_json interfaces_json)
              else inl (unsupported_mode mode)))

  -- What a start with TCP is run with: at least one interface, each with a host and a port from 1 to
  -- 65535.
  abbrev AllGood : List (Bytes × ℕ) → Type 0
  AllGood [] = Unit
  AllGood ((host, port) ∷ xs) = (1 ≤ length host) × (1 ≤ port) × (port ≤ 65535) × AllGood xs

  abbrev pub GoodPlan : ℕ → StartError ⊎ StartPlan → Type 0
  GoodPlan mode (inl e) = Unit
  GoodPlan mode (inr (start_reticulum xs interval)) = (mode ≡ 3) × (1 ≤ length xs) × AllGood xs
  GoodPlan mode (inr start_ble) = mode ≡ 0
  GoodPlan mode (inr (start_full xs interval)) =
      (mode ≡ 4) × (1 ≤ length xs) × AllGood xs × (60000 ≤ interval)

  abbrev GoodList : StartError ⊎ List (Bytes × ℕ) → Type 0
  GoodList (inl e) = Unit
  GoodList (inr xs) = AllGood xs

  interfaces_from-GoodList : (i : ℕ) (vs : List Value) → GoodList (interfaces_from i vs)
  unfolding interfaces_from
  interfaces_from-GoodList i [] = tt
  interfaces_from-GoodList i (v ∷ vs) =
      add (json.host_of v) (json.port_of v) (interfaces_from (suc i) vs)
        (interfaces_from-GoodList (suc i) vs)
    where
      with_port :
          (host : Bytes) (port : Option ℕ) (rest : StartError ⊎ List (Bytes × ℕ))
          → 1 ≤ length host
          → GoodList rest
          → GoodList (add_interface (one_interface i (some host) (good_port port)) rest)
      with_port host none rest h g = tt
      with_port host (some port) (inl e) h g = elim (Bool-cases (ltb 0 port && leb port 65535)) [
        | inl ok ↦ unfold good_port in unfold one_interface in unfold add_interface in rw ok tt
        | inr bad ↦ unfold good_port in unfold one_interface in unfold add_interface in rw bad tt
      ]
      with_port host (some port) (inr xs) h g = elim (Bool-cases (ltb 0 port && leb port 65535)) [
        | inl ok ↦
            unfold good_port in
            unfold one_interface in unfold add_interface in rw ok (h, ground arith, ground arith, g)
        | inr bad ↦ unfold good_port in unfold one_interface in unfold add_interface in rw bad tt
      ]

      add :
          (host : Option Bytes) (port : Option ℕ) (rest : StartError ⊎ List (Bytes × ℕ))
          → GoodList rest
          → GoodList (add_interface (one_interface i (good_host host) (good_port port)) rest)
      add none port rest g = tt
      add (some []) port rest g = tt
      add (some (c ∷ cs)) port rest g = with_port (c ∷ cs) port rest (omega arith) g

  parsed-GoodList : (o : Option (List Value)) → GoodList (interfaces_in o)
  unfolding interfaces_in
  parsed-GoodList none = tt
  parsed-GoodList (some arr) = interfaces_from-GoodList 0 arr

  reticulum-GoodPlan :
      (mode interval : ℕ) (r : StartError ⊎ List (Bytes × ℕ))
      → mode ≡ 3
      → GoodList r
      → GoodPlan mode (with_interfaces (λ xs. start_reticulum xs interval) r)
  unfolding with_interfaces
  reticulum-GoodPlan mode interval (inl e) h g = tt
  reticulum-GoodPlan mode interval (inr []) h g = tt
  reticulum-GoodPlan mode interval (inr (x ∷ xs)) h g = (h, omega arith, g)

  full-GoodPlan :
      (mode interval : ℕ) (r : StartError ⊎ List (Bytes × ℕ))
      → mode ≡ 4
      → 60000 ≤ interval
      → GoodList r
      → GoodPlan mode (with_interfaces (λ xs. start_full xs interval) r)
  unfolding with_interfaces
  full-GoodPlan mode interval (inl e) h k g = tt
  full-GoodPlan mode interval (inr []) h k g = tt
  full-GoodPlan mode interval (inr (x ∷ xs)) h k g = (h, omega arith, g, k)

  -- Whatever `start` is called with: it fails, or runs mode 0 by BLE alone, or mode 3 or 4 with at least
  -- one interface, each with a host and a port from 1 to 65535; and the announce interval that mode 4
  -- is run with is at least 60000 ms.
  pub start-GoodPlan :
      (mode announce_interval_ms : ℕ) (interfaces_json : Bytes)
      → GoodPlan mode (start mode announce_interval_ms interfaces_json)
  unfolding start parse_interfaces_json
  start-GoodPlan mode announce_interval_ms interfaces_json = elim (Bool-cases (mode == 3)) [
    | inl three ↦ rw three (
        reticulum-GoodPlan mode (clamp_interval mode announce_interval_ms) _
          ((==_iff mode 3).0 three) (parsed-GoodList (json.from_str interfaces_json)))
    | inr other ↦ rw other (elim (Bool-cases (mode == 0)) [
      | inl zero_mode ↦ rw zero_mode ((==_iff mode 0).0 zero_mode)
      | inr more ↦ rw more (elim (Bool-cases (mode == 4)) [
        | inl four ↦ rw four (
            full-GoodPlan mode (max announce_interval_ms 60000) _ ((==_iff mode 4).0 four)
              (omega arith) (parsed-GoodList (json.from_str interfaces_json)))
        | inr none_of ↦ rw none_of tt
      ])
    ])
  ]
