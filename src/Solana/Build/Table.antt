-- ===== src/Solana/Build/Table.antt =====
-- The account table: no lookup fails, and every index points at the account that it stands for.
use lxmf_react_native_rust.Prelude.{
  ℕ, zero, suc, ◌≤◌, ◌≡◌, refl, ap, inl, inr, true, false, some, List, [], ◌∷◌, arith, Bytes,
  Bool-cases, bytes_eq, bytes_eq→eq, length, get_elem?,
}
use lxmf_react_native_rust.Prelude.Map.{bytes_eq_iff}
use lxmf_react_native_rust.Solana.Message.{Key, CompiledInstruction}
use lxmf_react_native_rust.Solana.Message.Layout.{get_elem?-lt}
use lxmf_react_native_rust.Solana.Build.{
  header_of, bump, idx, ExecutePaymentParams, ExecutePaymentAccounts, PlainExecutePaymentAccounts,
  position, idx, indices, compile, plain_table, plain_accounts, nonce_table, nonce_accounts,
  plain_message, nonce_message, build_execute_payment_ix_data, system_program,
  sysvar_recent_blockhashes,
}

-- The table holds the key.
abbrev pub Listed : List Key → Key → Type 0
Listed table key = (j : ℕ) × (get_elem? table j ≡ some key)

abbrev pub AllListed : List Key → List Key → Type 0
AllListed table [] = Unit {0}
AllListed table (k ∷ ks) = Listed table k × AllListed table ks

-- Each index is that of its key.
abbrev pub Points : List Key → Bytes → List Key → Type 0
Points table [] [] = Unit {0}
Points table [] (k ∷ ks) = ⊥
Points table (i ∷ is) [] = ⊥
Points table (i ∷ is) (k ∷ ks) = (get_elem? table i ≡ some k) × Points table is ks

abbrev Found : List Key → Key → Type 0
Found table key = (i : ℕ) × (position table key ≡ some i) × (get_elem? table i ≡ some key)

Found-head :
    (k : Key) (table : List Key) (key : Key) → bytes_eq k key ≡ true → Found (k ∷ table) key
unfolding position
Found-head k table key h = (0, rw h refl, ap some (bytes_eq→eq k key h))

Found-tail :
    (k : Key) (table : List Key) (key : Key)
    → bytes_eq k key ≡ false
    → Found table key
    → Found (k ∷ table) key
unfolding position bump
Found-tail k table key miss (i, p, g) = (suc i, rw (miss, p) refl, g)

position_of_Listed :
    (table : List Key) (key : Key) (j : ℕ) → get_elem? table j ≡ some key → Found table key
position_of_Listed [] key j e = cc
position_of_Listed (k ∷ table) key zero e = Found-head k table key ((bytes_eq_iff k key).1 (cc e))
position_of_Listed (k ∷ table) key (suc j) e =
    let later = position_of_Listed table key j e in
    elim (Bool-cases (bytes_eq k key)) [
      | inl here ↦ Found-head k table key here
      | inr miss ↦ Found-tail k table key miss later
    ]

idx_of_Listed :
    (table : List Key) (key : Key)
    → length table ≤ 256
    → Listed table key
    → (i : ℕ) × (idx table key ≡ some i) × (get_elem? table i ≡ some key)
unfolding idx
idx_of_Listed table key small (j, e) =
    let (i, p, g) = position_of_Listed table key j e in
    (i, rw p (ap some (omega (arith, get_elem?-lt table i key g))), g)

indices_of_Listed :
    (table keys : List Key)
    → length table ≤ 256
    → AllListed table keys
    → (is : Bytes) × (indices table keys ≡ some is) × Points table is keys
unfolding indices
indices_of_Listed table [] small h = ([], refl, tt)
indices_of_Listed table (key ∷ keys) small h =
    let (i, p, g) = idx_of_Listed table key small h.0 in
    let (is, q, points) = indices_of_Listed table keys small h.1 in
    (i ∷ is, rw (p, q) refl, (g, points))

-- The instruction names this program and these accounts, and carries these bytes.
abbrev pub Compiled : List Key → Key → List Key → Bytes → CompiledInstruction → Type 0
Compiled table program keys ix_data ix =
    (get_elem? table ix.program_id_index ≡ some program)
    × Points table ix.account_indices keys
    × (ix.ix_data ≡ ix_data)

compile_of_Listed :
    (table : List Key) (program : Key) (keys : List Key) (ix_data : Bytes)
    → length table ≤ 256
    → Listed table program
    → AllListed table keys
    → (ix : CompiledInstruction) × (compile table program keys ix_data ≡ some ix)
      × Compiled table program keys ix_data ix
unfolding compile
compile_of_Listed table program keys ix_data small hp hs =
    let (p, e, g) = idx_of_Listed table program small hp in
    let (is, f, points) = indices_of_Listed table keys small hs in
    (
      record { program_id_index = p; account_indices = is; ix_data = ix_data },
      rw (e, f) refl,
      (g, points, refl),
    )

plain_listed :
    (payer broadcaster : Key) (a : PlainExecutePaymentAccounts)
    → AllListed (plain_table payer broadcaster a) (plain_accounts payer broadcaster a)
plain_listed payer broadcaster a = (
  (0, refl),
  (
    (1, refl),
    (
      (2, refl),
      (
        (3, refl),
        (
          (4, refl),
          ((5, refl), ((6, refl), ((7, refl), ((8, refl), ((9, refl), ((10, refl), tt)))))),
        ),
      ),
    ),
  ),
)

nonce_listed : (a : ExecutePaymentAccounts) → AllListed (nonce_table a) (nonce_accounts a)
nonce_listed a = (
  (0, refl),
  (
    (1, refl),
    (
      (3, refl),
      (
        (4, refl),
        (
          (5, refl),
          ((6, refl), ((7, refl), ((8, refl), ((9, refl), ((10, refl), ((11, refl), tt)))))),
        ),
      ),
    ),
  ),
)

-- For every choice of accounts, those that coincide included, the transaction without a durable
-- nonce is built: no lookup panics, its table is payer, broadcaster and the rest in the fixed
-- order, and its one instruction resolves through that table to the arcium program and to the
-- eleven accounts in the order of the IDL.
pub plain_message_built :
    (sha256 : Bytes → Bytes) (payer broadcaster : Key) (recent_blockhash : Bytes)
    (a : PlainExecutePaymentAccounts) (params : ExecutePaymentParams)
    → (ix : CompiledInstruction) × (plain_message sha256 payer broadcaster recent_blockhash a params
        ≡ some (record {
          header = header_of 6;
          account_keys = plain_table payer broadcaster a;
          recent_blockhash = recent_blockhash;
          instructions = ix ∷ [];
        }))
      × Compiled
          (plain_table payer broadcaster a)
          a.program_id
          (plain_accounts payer broadcaster a)
          (build_execute_payment_ix_data sha256 params)
          ix
unfolding plain_message
plain_message_built sha256 payer broadcaster recent_blockhash a params =
    let (ix, e, c) =
      compile_of_Listed (plain_table payer broadcaster a) a.program_id
        (plain_accounts payer broadcaster a) (build_execute_payment_ix_data sha256 params)
        (omega arith) (11, refl) (plain_listed payer broadcaster a) in
    (ix, rw e refl, c)

-- The durable-nonce transaction is built for every choice of accounts too: its first instruction
-- resolves to the system program with the nonce account, the recent-blockhashes sysvar and the
-- payer, its second to the arcium program with the eleven accounts of the IDL.
pub nonce_message_built :
    (sha256 : Bytes → Bytes) (nonce_blockhash : Bytes) (a : ExecutePaymentAccounts)
    (params : ExecutePaymentParams)
    → (advance pay : CompiledInstruction) × (nonce_message sha256 nonce_blockhash a params
        ≡ some (record {
          header = header_of 7;
          account_keys = nonce_table a;
          recent_blockhash = nonce_blockhash;
          instructions = advance ∷ pay ∷ [];
        }))
      × Compiled
          (nonce_table a)
          system_program
          (a.nonce_account ∷ sysvar_recent_blockhashes ∷ a.payer ∷ [])
          (4 ∷ 0 ∷ 0 ∷ 0 ∷ [])
          advance
      × Compiled
          (nonce_table a)
          a.program_id
          (nonce_accounts a)
          (build_execute_payment_ix_data sha256 params)
          pay
unfolding nonce_message
nonce_message_built sha256 nonce_blockhash a params =
    let (advance, e, c) =
      compile_of_Listed (nonce_table a) system_program
        (a.nonce_account ∷ sysvar_recent_blockhashes ∷ a.payer ∷ []) (4 ∷ 0 ∷ 0 ∷ 0 ∷ [])
        (omega arith) (9, refl) ((2, refl), ((12, refl), ((0, refl), tt))) in
    let (pay, f, d) =
      compile_of_Listed (nonce_table a) a.program_id (nonce_accounts a)
        (build_execute_payment_ix_data sha256 params) (omega arith) (13, refl) (nonce_listed a) in
    (advance, pay, rw (e, f) refl, c, d)
