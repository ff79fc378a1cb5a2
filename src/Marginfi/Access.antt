-- ===== src/Marginfi/Access.antt =====
-- What the checks of the MarginFi adapter establish about the accounts of a call
-- (programs/adapters/marginfi-usdc/src/lib.rs, `validate_*` and the accounts structs).
use sol_yield.Base.{
  ℕ, ◌+◌, ◌≤◌, ◌≡◌, ◌≢◌, ◌↔◌, refl, Option, none, some, List, [], ◌∷◌, length, get_elem?, arith,
}
use sol_yield.Base.Data.{index}
use sol_yield.Base.Result.{Result, ok, >>-ok, >>=-ok, ◌>>◌}
use sol_yield.Solana.Account.{Pubkey, pubkey_bytes, default_pubkey}
use sol_yield.Solana.Chain.{Chain}
use sol_yield.Solana.Pda.{Pda}
use sol_yield.Marginfi.Types.{
  MarginfiUsdcError, liquidity_vault_authority_seed, bank_mint_offset, bank_mint_decimals_offset,
  bank_group_offset, bank_liquidity_vault_offset, bank_operational_state_offset,
  bank_oracle_setup_offset, bank_oracle_keys_offset, marginfi_account_group_offset,
  marginfi_account_authority_offset, MarginfiAccounts,
}
use sol_yield.Marginfi.Fixed.{read_pubkey}
use sol_yield.Marginfi.Validate.{
  check_bank, check_vault, check_vault_authority, check_marginfi_account, check_protocol_keys,
  validate_protocol_state,
}

-- The bank's data is long enough, and names the mint with six decimals, the group, the vault, an
-- operational state and an oracle.
pub record IsBank (bytes : List ℕ) (mint group vault : Pubkey) : Type 0 where
  pub long : bank_oracle_keys_offset + 32 ≤ length bytes
  pub of_mint : read_pubkey bytes bank_mint_offset ≡ ok mint
  pub of_group : read_pubkey bytes bank_group_offset ≡ ok group
  pub of_vault : read_pubkey bytes bank_liquidity_vault_offset ≡ ok vault
  pub six_decimals : get_elem? bytes bank_mint_decimals_offset ≡ some 6
  pub operational : get_elem? bytes bank_operational_state_offset ≡ some 1
  pub oracle_setup :
      (setup : ℕ) × (get_elem? bytes bank_oracle_setup_offset ≡ some setup) × (setup ≢ 0)
  pub oracle :
      (key : Pubkey) × (read_pubkey bytes bank_oracle_keys_offset ≡ ok key) × (key ≢ default_pubkey)

check_bank_iff :
    (bytes : List ℕ) (mint group vault : Pubkey)
    → (check_bank bytes mint group ≡ ok vault) ↔ IsBank bytes mint group vault
unfolding check_bank index
check_bank_iff bytes mint group vault = (λ accepted. ground arith, λ spec. ground arith)

-- The MarginFi account's data names the group and the owner.
pub record IsMarginfiAccount (bytes : List ℕ) (group owner : Pubkey) : Type 0 where
  pub of_group : read_pubkey bytes marginfi_account_group_offset ≡ ok group
  pub of_owner : read_pubkey bytes marginfi_account_authority_offset ≡ ok owner

check_marginfi_account_iff :
    (bytes : List ℕ) (group owner : Pubkey)
    → (check_marginfi_account bytes group owner ≡ ok tt) ↔ IsMarginfiAccount bytes group owner
unfolding check_marginfi_account
check_marginfi_account_iff bytes group owner = (λ accepted. ground arith, λ spec. ground arith)

-- A key that may be passed is the expected one.
abbrev pub PassedIs : Option Pubkey → Pubkey → Type 0
PassedIs none expected = Unit
PassedIs (some key) expected = key ≡ expected

check_vault_iff :
    (passed : Option Pubkey) (vault : Pubkey)
    → (check_vault passed vault ≡ ok tt) ↔ PassedIs passed vault
unfolding check_vault
check_vault_iff none vault = (λ _. tt, λ _. refl)
check_vault_iff (some key) vault = (λ accepted. ground arith, λ spec. ground arith)

module _ (pda : Pda) where
  -- The authority of the bank's vault.
  abbrev pub vault_authority : Pubkey → Pubkey → Pubkey
  vault_authority bank program =
      (pda.find_program_address (liquidity_vault_authority_seed ∷ pubkey_bytes bank ∷ []) program).0

  check_vault_authority_iff :
      (passed : Option Pubkey) (bank program : Pubkey)
      → (check_vault_authority pda passed bank program ≡ ok tt)
        ↔ PassedIs passed (vault_authority bank program)
  unfolding check_vault_authority
  check_vault_authority_iff none bank program = (λ _. tt, λ _. refl)
  check_vault_authority_iff (some key) bank program =
      (λ accepted. ground arith, λ spec. ground arith)

  module _ {ℓ} {S : Type ℓ} (chain : Chain S) (s : S) (ctx : MarginfiAccounts) where
    -- Account and bank are the position's and the program's, bank, account and mint belong
    -- together, and this is the bank's vault.
    pub record Linked (vault : Pubkey) : Type 0 where
      pub account_named : ctx.marginfi_account.key ≡ ctx.position.state.marginfi_account
      pub bank_named : ctx.marginfi_bank.key ≡ ctx.position.state.marginfi_bank
      pub account_owned : chain.account_owner s ctx.marginfi_account.key ≡ ctx.marginfi_program
      pub bank_owned : chain.account_owner s ctx.marginfi_bank.key ≡ ctx.marginfi_program
      pub bank :
          IsBank
            (chain.account_bytes s ctx.marginfi_bank.key)
            ctx.config.state.supported_mint
            ctx.marginfi_group
            vault
      pub account :
          IsMarginfiAccount
            (chain.account_bytes s ctx.marginfi_account.key)
            ctx.marginfi_group
            ctx.position.state.owner

    check_protocol_keys_iff :
        (check_protocol_keys chain s ctx.position.state ctx.marginfi_program
            ctx.marginfi_account.key ctx.marginfi_bank.key
          ≡ ok tt)
        ↔ ((ctx.marginfi_account.key ≡ ctx.position.state.marginfi_account)
            × (ctx.marginfi_bank.key ≡ ctx.position.state.marginfi_bank)
            × (chain.account_owner s ctx.marginfi_account.key ≡ ctx.marginfi_program)
            × (chain.account_owner s ctx.marginfi_bank.key ≡ ctx.marginfi_program))
    unfolding check_protocol_keys
    check_protocol_keys_iff = (λ accepted. ground arith, λ spec. ground arith)

    pub validate_protocol_state_iff :
        (passed authority : Option Pubkey)
        → (validate_protocol_state pda chain s ctx passed authority ≡ ok tt) ↔ (
            (vault : Pubkey) × Linked vault
            × PassedIs passed vault
            × PassedIs authority (vault_authority ctx.marginfi_bank.key ctx.marginfi_program))
    unfolding validate_protocol_state
    validate_protocol_state_iff passed authority =
        let bank_bytes = chain.account_bytes s ctx.marginfi_bank.key in
        let account_bytes = chain.account_bytes s ctx.marginfi_account.key in
        let mint = ctx.config.state.supported_mint in
        let group = ctx.marginfi_group in
        let keys = check_protocol_keys_iff in
        let account = check_marginfi_account_iff account_bytes group ctx.position.state.owner in
        let after_bank : Pubkey → Result MarginfiUsdcError (Unit {0}) = λ vault. (do
          check_vault passed vault
          check_vault_authority pda authority ctx.marginfi_bank.key ctx.marginfi_program
          check_marginfi_account account_bytes group ctx.position.state.owner) in
        let derived =
          check_vault_authority_iff authority ctx.marginfi_bank.key ctx.marginfi_program in
        (
          λ accepted.
              let (keyed, rest) =
                >>-ok
                  (check_protocol_keys chain s ctx.position.state ctx.marginfi_program
                    ctx.marginfi_account.key ctx.marginfi_bank.key)
                  _ accepted in
              let (vault, checked, rest') =
                >>=-ok (check_bank bank_bytes mint group) after_bank rest in
              let (passes, rest'') = >>-ok (check_vault passed vault) _ rest' in
              let (authorized, owned) =
                >>-ok
                  (check_vault_authority pda authority ctx.marginfi_bank.key ctx.marginfi_program) _
                  rest'' in
              let (a, b, c, d) = keys.0 keyed in
              (
                vault,
                record {
                  account_named = a;
                  bank_named = b;
                  account_owned = c;
                  bank_owned = d;
                  bank = (check_bank_iff bank_bytes mint group vault).0 checked;
                  account = account.0 owned;
                },
                (check_vault_iff passed vault).0 passes,
                derived.0 authorized,
              ),
          λ (vault, linked, is_passed, is_derived).
              let keyed = keys.1 (
                linked.account_named, linked.bank_named, linked.account_owned, linked.bank_owned,
              ) in
              let checked = (check_bank_iff bank_bytes mint group vault).1 linked.bank in
              let passes = (check_vault_iff passed vault).1 is_passed in
              rw (keyed, checked, passes, derived.1 is_derived, account.1 linked.account),
        )
