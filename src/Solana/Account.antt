-- ===== src/Solana/Account.antt =====
-- Addresses, accounts and instructions, as the programs name them. A `Pubkey` is the number
-- whose 32 little-endian bytes are the key's.
use sol_yield.Base.{ℕ, Bool, true, false, List}
use sol_yield.Base.Bytes.{to_le_bytes}

abbrev pub Pubkey : Type 0
Pubkey = ℕ

-- `Pubkey::default()`, 32 zero bytes
abbrev pub default_pubkey : Pubkey
default_pubkey = 0

-- `key.as_ref()`
abbrev pub pubkey_bytes : Pubkey → List ℕ
pubkey_bytes key = to_le_bytes 32 key

pub record AccountInfo : Type 0 where
  pub key : Pubkey
  pub is_signer : Bool
  pub is_writable : Bool
  pub owner : Pubkey
  pub bytes : List ℕ

pub record AccountMeta : Type 0 where
  pub pubkey : Pubkey
  pub is_signer : Bool
  pub is_writable : Bool

-- `AccountMeta::new` and `AccountMeta::new_readonly`
abbrev pub meta_new : Pubkey → Bool → AccountMeta
meta_new key signer = record { pubkey = key; is_signer = signer; is_writable = true }

abbrev pub meta_new_readonly : Pubkey → Bool → AccountMeta
meta_new_readonly key signer = record { pubkey = key; is_signer = signer; is_writable = false }

pub record Instruction : Type 0 where
  pub program_id : Pubkey
  pub accounts : List AccountMeta
  pub bytes : List ℕ

-- `Signer<'info>`: an account that has to have signed
pub record Signer : Type 0 where
  pub key : Pubkey
  pub is_signer : Bool
  pub is_writable : Bool

-- `Account<'info, T>`: an account of the program whose data was read as a `T`
pub record Account {ℓ} (T : Type ℓ) : Type ℓ where
  pub key : Pubkey
  pub is_writable : Bool
  pub state : T

-- An address that a caller passes, with the access that it asks for.
pub record AccountRef : Type 0 where
  pub key : Pubkey
  pub is_writable : Bool
