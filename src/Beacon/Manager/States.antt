-- ===== src/Beacon/Manager/States.antt =====
-- The invariant of a manager, and the operations on beacons that keep it.
use lxmf_react_native_rust.Prelude.{
  ℕ, ◌^◌, ◌≤◌, ◌<◌, ◌≡◌, refl, ◌∙◌, inl, inr, Bool, true, false, Option, none, some, List, [], ◌∷◌,
  arith, Bytes, Bool-cases, bytes_eq,
}
use lxmf_react_native_rust.Prelude.Map.{bytes_eq_iff, bytes_Eq, nat_Eq, lookup, insert, remove}
use lxmf_react_native_rust.Beacon.Wire.{is_beacon_announce}
use lxmf_react_native_rust.Beacon.Manager.{
  DestHash, Beacon, BeaconManager, note_announce, on_announce_received, update,
}

-- Every beacon is stored under its own destination.
abbrev pub AllKeyed : List (DestHash × Beacon) → Type 0
AllKeyed [] = Unit {0}
AllKeyed ((k, b) ∷ bs) = (b.dest_hash ≡ k) × AllKeyed bs

-- An active schedule has the time of its start.
abbrev pub IsStarted : Bool → Option ℕ → Type 0
IsStarted true none = ⊥
IsStarted true (some start) = Unit {0}
IsStarted false start = Unit {0}

pub record IsValid (m : BeaconManager) : Type 0 where
  pub keyed : AllKeyed m.beacons
  pub started : IsStarted m.announce_active m.announce_start
  pub positive : 1 ≤ m.next_rpc_id
  pub small : m.next_rpc_id < 2 ^ 32

insert-AllKeyed :
    (dest : DestHash) (b : Beacon) (bs : List (DestHash × Beacon))
    → b.dest_hash ≡ dest
    → AllKeyed bs
    → AllKeyed (insert dest b bs)
unfolding insert
insert-AllKeyed dest b [] e h = (e, tt)
insert-AllKeyed dest b ((k, c) ∷ bs) e h =
    let later = insert-AllKeyed dest b bs e h.1 in
    elim (Bool-cases (bytes_eq k dest)) [
      | inl here ↦ rw here (e, h.1)
      | inr miss ↦ rw miss (h.0, later)
    ]

pub remove-AllKeyed :
    (dest : DestHash) (bs : List (DestHash × Beacon)) → AllKeyed bs → AllKeyed (remove dest bs)
unfolding remove
remove-AllKeyed dest [] h = tt
remove-AllKeyed dest ((k, c) ∷ bs) h =
    let later = remove-AllKeyed dest bs h.1 in
    elim (Bool-cases (bytes_eq k dest)) [
      | inl here ↦ rw here later
      | inr miss ↦ rw miss (h.0, later)
    ]

lookup-AllKeyed :
    (dest : DestHash) (bs : List (DestHash × Beacon)) (b : Beacon)
    → AllKeyed bs
    → lookup dest bs ≡ some b
    → b.dest_hash ≡ dest
unfolding lookup
lookup-AllKeyed dest [] b h e = cc
lookup-AllKeyed dest ((k, c) ∷ bs) b h e =
    ground (arith, bytes_eq_iff k dest, h.0, lookup-AllKeyed dest bs b h.1)

pub update-IsValid :
    (m : BeaconManager) (dest : DestHash) (f : Beacon → Beacon) (o : Option Beacon)
    → ((b : Beacon) → (f b).dest_hash ≡ b.dest_hash)
    → lookup dest m.beacons ≡ o
    → IsValid m
    → IsValid (update dest f o m)
unfolding update
update-IsValid m dest f none same e v = v
update-IsValid m dest f (some b) same e v = record {
  keyed =
      insert-AllKeyed dest (f b) m.beacons (same b ∙ lookup-AllKeyed dest m.beacons b v.keyed e)
        v.keyed;
  started = v.started;
  positive = v.positive;
  small = v.small;
}

note_announce-IsValid :
    (m : BeaconManager) (dest : DestHash) (app_data : Bytes) (now : ℕ) (o : Option Beacon)
    → lookup dest m.beacons ≡ o
    → IsValid m
    → IsValid (note_announce m dest app_data now o)
unfolding note_announce
note_announce-IsValid m dest app_data now none e v = record {
  keyed = insert-AllKeyed dest _ m.beacons refl v.keyed;
  started = v.started;
  positive = v.positive;
  small = v.small;
}
note_announce-IsValid m dest app_data now (some b) e v = record {
  keyed = insert-AllKeyed dest _ m.beacons (lookup-AllKeyed dest m.beacons b v.keyed e) v.keyed;
  started = v.started;
  positive = v.positive;
  small = v.small;
}

pub on_announce_received-IsValid :
    (m : BeaconManager) (dest : DestHash) (app_data : Bytes) (now : ℕ)
    → IsValid m
    → IsValid (on_announce_received m dest app_data now)
unfolding on_announce_received
on_announce_received-IsValid m dest app_data now v =
    elim (Bool-cases (is_beacon_announce app_data)) [
      | inl beacon ↦
          rw beacon (note_announce-IsValid m dest app_data now (lookup dest m.beacons) refl v)
      | inr other ↦ rw other v
    ]
